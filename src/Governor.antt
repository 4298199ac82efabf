-- ===== src/Governor.antt =====
-- fta_agent/fta_agent/observability/resource_governor.py, class ResourceGovernor.
-- A load and its limit are in one unit, so that `load < limit * 0.8` is exact.
use mathlib.Core.List.{[]}
pub mod Throttle
mod Examples
use scv_agent.Message.{MsgClass, bulk, state, event}
use scv_agent.Base.{suc, not, ◌*◌, ◌||◌, ◌&&◌, ltb, ◌∷◌, true, false, if◌then◌else◌, List, Bool, ℕ}

-- What the governor reads and sets of a pipeline.
pub record Target : Type 0 where
  pub msg_class : MsgClass
  pub paused : Bool

pub record Governor : Type 0 where
  pub cpu_limit : ℕ
  pub mem_limit : ℕ
  pub throttled : Bool
  pub throttle_count : ℕ
  pub pipelines : List Target

unfoldable pub init : ℕ → ℕ → List Target → Governor
init cpu_limit mem_limit pipelines = record {
  cpu_limit = cpu_limit;
  mem_limit = mem_limit;
  throttled = false;
  throttle_count = 0;
  pipelines = pipelines;
}

abbrev pub is_bulk : MsgClass → Bool
is_bulk bulk = true
is_bulk state = false
is_bulk event = false

-- pause() or resume() of each bulk pipeline.
abbrev pub set_paused : Bool → List Target → List Target
set_paused b [] = []
set_paused b (t ∷ ts) =
    (if is_bulk t.msg_class then record t { paused = b } else t) ∷ set_paused b ts

abbrev pub over : ℕ → ℕ → Governor → Bool
over cpu rss g = ltb g.cpu_limit cpu || ltb g.mem_limit rss

abbrev pub under : ℕ → ℕ → Governor → Bool
under cpu rss g = ltb (cpu * 10) (g.cpu_limit * 8) && ltb (rss * 10) (g.mem_limit * 8)

-- `_check`
unfoldable pub check : ℕ → ℕ → Governor → Governor
check cpu rss g =
    if over cpu rss g && not g.throttled
    then record g {
      throttled = true;
      throttle_count = suc g.throttle_count;
      pipelines = set_paused true g.pipelines;
    }
    else if g.throttled && under cpu rss g
    then record g { throttled = false; pipelines = set_paused false g.pipelines }
    else g

unfoldable pub check_all : List (ℕ × ℕ) → Governor → Governor
check_all [] g = g
check_all ((cpu, rss) ∷ loads) g = check_all loads (check cpu rss g)
