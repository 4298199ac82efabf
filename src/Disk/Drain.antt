-- ===== src/Disk/Drain.antt =====
-- `drain` of disk_buffer.py: the backlog is sent again, oldest first.
-- `publish_fn` is a parameter that works on a state of its own.
pub mod Backlog
use Prim.Native.String.{◌++◌ as append_text, compare}
use Prim.Native.Nat.{Ordering}
use scv_agent.Disk.Frame.{read_records, Cbor}
use scv_agent.Disk.{Disk, Segment, Stored}
use scv_agent.Base.{
  some, if◌then◌else◌, none, false, String, Option, true, Bool, ℕ, suc, ◌+◌, ◌≡◌, List, [], ◌∷◌,
  ◌++◌,
}

-- What `publish_fn` is known to do: `taken` lists the records that it answered `true` for, in order.
pub record Publisher {ℓ} (S : Type ℓ) : Type ℓ where
  pub publish : Stored → S → Bool × S
  pub taken : S → List Stored
  pub publish_true :
      (r : Stored) (s : S) → (publish r s).0 ≡ true → taken (publish r s).1 ≡ taken s ++ r ∷ []
  pub publish_false :
      (r : Stored) (s : S) → (publish r s).0 ≡ false → taken (publish r s).1 ≡ taken s

module _ {ℓ} {S : Type ℓ} (publish : Stored → S → Bool × S) where
  -- The inner loop: how many records went out, whether all did, and the transport after it.
  unfoldable pub send_all : List Stored → S → ℕ × Bool × S
  send_all [] s = (0, true, s)
  send_all (r ∷ rs) s =
      let (ok, s') = publish r s in
      let (n, all, s'') = send_all rs s' in if ok then (suc n, all, s'') else (0, false, s')

-- Whether the file of a name comes before that of another, `<pipeline>.rec`.
abbrev pub comes_first : String → String → Bool
comes_first a b = elim (compare (append_text a ".rec") (append_text b ".rec")) [
  | Ordering.gt ↦ false
  | _ ↦ true
]

abbrev pub insert_file : String × List ℕ → List (String × List ℕ) → List (String × List ℕ)
insert_file e [] = e ∷ []
insert_file e (f ∷ fs) =
    let rest = insert_file e fs in if comes_first e.0 f.0 then e ∷ f ∷ fs else f ∷ rest

-- sorted(self._latest_dir.glob("*.rec"))
unfoldable pub sort_files : List (String × List ℕ) → List (String × List ℕ)
sort_files [] = []
sort_files (e ∷ es) = insert_file e (sort_files es)

-- How a drain ends: sent, done, the files that are left, the transport; or an exception of
-- `_read_records`, with the files that are left.
pub record Drained {ℓ} (F : Type 0) (S : Type ℓ) : Type ℓ where
  pub sent : ℕ
  pub complete : Bool
  pub left : List F
  pub state : S
  pub raised : Bool

module _ {ℓ} {S : Type ℓ} (cbor : Cbor Stored) (publish : Stored → S → Bool × S) where
  -- The loop over the segments, from a number of records sent on; a file goes when all of it was
  -- sent.
  unfoldable pub drain_segments : ℕ → List Segment → S → Drained Segment S
  drain_segments sent [] s = record {
    sent = sent;
    complete = true;
    left = [];
    state = s;
    raised = false;
  }
  drain_segments sent (g ∷ gs) s = elim (read_records cbor g.bytes) [
    | none ↦ record { sent = sent; complete = false; left = g ∷ gs; state = s; raised = true }
    | some rs ↦
        let (n, all, s') = send_all publish rs s in
        let rest = drain_segments (sent + n) gs s' in
        if all
        then rest
        else record { sent = sent + n; complete = false; left = g ∷ gs; state = s'; raised = false }
  ]

  -- records[-1]
  abbrev pub last_of : List Stored → Option Stored
  last_of [] = none
  last_of (r ∷ []) = some r
  last_of (r ∷ q ∷ rs) = last_of (q ∷ rs)

  -- The loop over the latest states: the last record of each file is sent.
  unfoldable pub drain_latest : ℕ → List (String × List ℕ) → S → Drained (String × List ℕ) S
  drain_latest sent [] s = record {
    sent = sent;
    complete = true;
    left = [];
    state = s;
    raised = false;
  }
  drain_latest sent (e ∷ es) s = elim (read_records cbor e.1) [
    | none ↦ record { sent = sent; complete = false; left = e ∷ es; state = s; raised = true }
    | some rs ↦ elim (last_of rs) [
      | none ↦ drain_latest sent es s
      | some r ↦
          let (ok, s') = publish r s in
          let rest = drain_latest (suc sent) es s' in
          if ok
          then rest
          else record { sent = sent; complete = false; left = e ∷ es; state = s'; raised = false }
    ]
  ]

  -- `drain`: the disk after it, (sent, done), the transport, and whether an exception came out.
  unfoldable pub drain : Disk → S → Disk × ℕ × Bool × S × Bool
  drain d s =
      let a = drain_segments 0 d.segments s in
      let d' = record d { current = none; segments = a.left } in
      let b = drain_latest a.sent (sort_files d.latest) a.state in
      if a.complete
      then (if b.complete
          then (
            record d' {
              latest = b.left;
              stats = record (d.stats) { drained = d.stats.drained + b.sent };
            },
            b.sent,
            true,
            b.state,
            b.raised,
          )
          else (record d' { latest = b.left }, b.sent, false, b.state, b.raised))
      else (d', a.sent, false, a.state, a.raised)
