-- ===== src/Disk/Log.antt =====
-- The event log of disk_buffer.py as one list of records, in the order in which they are sent again.
-- The files that the disk holds implement it: a segment may end in a torn record, left by a crash,
-- but the one that is open does not.
pub mod Append
pub mod Write
pub mod Refines
use scv_agent.Disk.{Disk, Segment, Stored, write, unlink_oldest}
use scv_agent.Disk.Frame.{read_records-frames, Cbor, frames, IsTorn, IsWhole}
use scv_agent.Disk.Drain.Backlog.{records_in, backlog}
use scv_agent.Base.{
  append_assoc, sym, refl, ◌∙◌, ap, [], suc, arith, some, ◌∷◌, ◌∷◌, ◌++◌, ◌≡◌, ◌≤◌, All, List, ℕ,
}

-- The numbers grow from a bound on, and stay below `next`.
abbrev pub Chain : ℕ → List Segment → ℕ → Type 0
Chain lo [] next = lo ≤ next
Chain lo (g ∷ gs) next = (lo ≤ g.number) × Chain (suc g.number) gs next

module _ (cbor : Cbor Stored) where
  pub record IsReadable (g : Segment) : Type 0 where
    pub records : List Stored
    pub torn : List ℕ
    pub whole : All (IsWhole cbor) records
    pub is_torn : IsTorn cbor torn
    pub holds : g.bytes ≡ frames cbor records ++ torn

  -- The open segment: the last one, of whole records.
  pub record IsOpen (gs : List Segment) (c : ℕ) : Type 0 where
    pub before : List Segment
    pub last : Segment
    pub records : List Stored
    pub split : gs ≡ before ++ last ∷ []
    pub number : last.number ≡ c
    pub whole : All (IsWhole cbor) records
    pub holds : last.bytes ≡ frames cbor records

  pub record IsLog (d : Disk) : Type 0 where
    pub chain : Chain 0 d.segments d.next
    pub readable : All IsReadable d.segments
    pub opened : (c : ℕ) → d.current ≡ some c → IsOpen d.segments c

  pub records_in-frames :
      (rs : List Stored) (torn : List ℕ) {raw : List ℕ}
      → All (IsWhole cbor) rs
      → IsTorn cbor torn
      → raw ≡ frames cbor rs ++ torn
      → records_in cbor raw ≡ rs
  records_in-frames rs torn whole t e =
      rw e (rw (read_records-frames cbor rs torn whole t, records_in) refl)

  pub backlog-append :
      (gs hs : List Segment) → backlog cbor (gs ++ hs) ≡ backlog cbor gs ++ backlog cbor hs
  backlog-append [] hs = refl
  backlog-append (g ∷ gs) hs =
      ap (◌++◌ (records_in cbor g.bytes)) (backlog-append gs hs)
      ∙ sym (append_assoc (records_in cbor g.bytes) (backlog cbor gs) (backlog cbor hs))

pub Chain-weaken :
    (lo hi : ℕ) (gs : List Segment) (next : ℕ) → lo ≤ hi → Chain hi gs next → Chain lo gs next
Chain-weaken lo hi [] next h c = omega arith
Chain-weaken lo hi (g ∷ gs) next h c = (omega (arith, c.0), c.1)

-- A new segment stands behind all others.
pub Chain-new :
    (lo : ℕ) (gs : List Segment) (next : ℕ) (bytes : List ℕ)
    → Chain lo gs next
    → Chain lo (gs ++ record { number = next; bytes = bytes } ∷ []) (suc next)
Chain-new lo [] next bytes c = (c, omega arith)
Chain-new lo (g ∷ gs) next bytes c = (c.0, Chain-new (suc g.number) gs next bytes c.1)

pub Chain-last :
    (lo : ℕ) (gs : List Segment) (g : Segment) (next : ℕ)
    → Chain lo (gs ++ g ∷ []) next
    → lo ≤ g.number
Chain-last lo [] g next c = c.0
Chain-last lo (h ∷ gs) g next c = omega (arith, c.0, Chain-last (suc h.number) gs g next c.1)

-- The last segment may get other bytes.
pub Chain-bytes :
    (lo : ℕ) (gs : List Segment) (g : Segment) (bytes : List ℕ) (next : ℕ)
    → Chain lo (gs ++ g ∷ []) next
    → Chain lo (gs ++ record g { bytes = bytes } ∷ []) next
Chain-bytes lo [] g bytes next c = c
Chain-bytes lo (h ∷ gs) g bytes next c = (c.0, Chain-bytes (suc h.number) gs g bytes next c.1)

-- A write to the last segment leaves the others alone.
pub write-last :
    (lo : ℕ) (gs : List Segment) (g : Segment) (bytes : List ℕ) (next : ℕ)
    → Chain lo (gs ++ g ∷ []) next
    → write g.number bytes (gs ++ g ∷ []) ≡ gs ++ record g { bytes = g.bytes ++ bytes } ∷ []
unfolding write
write-last lo [] g bytes next c = ground arith
write-last lo (h ∷ gs) g bytes next c =
    ground (
      arith,
      Chain-last (suc h.number) gs g next c.1,
      write-last (suc h.number) gs g bytes next c.1,
    )
