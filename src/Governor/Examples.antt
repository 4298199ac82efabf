-- ===== src/Governor/Examples.antt =====
-- Concrete runs of the resource governor.
use scv_agent.Governor.Throttle.{check_all-IsConsistent, IsConsistent}
use scv_agent.Governor.{check_all, Governor}
use scv_agent.Message.{bulk, state}
use scv_agent.Base.{refl, [], ◌∷◌, true, false}

abbrev camera_and_pose : Governor
camera_and_pose = record {
  cpu_limit = 20;
  mem_limit = 512;
  throttled = false;
  throttle_count = 0;
  pipelines =
      record { msg_class = bulk; paused = false }
      ∷ record { msg_class = state; paused = false }
      ∷ [];
}

check_all-IsConsistent_example :
    IsConsistent (check_all ((25, 100) ∷ (18, 100) ∷ []) camera_and_pose)
check_all-IsConsistent_example =
    check_all-IsConsistent ((25, 100) ∷ (18, 100) ∷ []) camera_and_pose (refl, (refl, tt))

abbrev throttling : Governor
throttling = record camera_and_pose { throttled = true }
