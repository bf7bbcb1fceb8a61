-- ===== src/Tests/Crashes.antt =====
-- The theorems on stale workers at a store with one.
use pgloom_engineering.Base.{◌≡◌, refl, inl, inr, false, some, [], ◌∷◌, All, Has}
use pgloom_engineering.Workflow.Rows.{running, TaskRow, Store}
use pgloom_engineering.Workflow.Stale.{is_stale, recover_stale_running_tasks}
use pgloom_engineering.Workflow.Stale.Cleared.{
  recover_stale_running_tasks-clears, recover_stale_running_tasks-keeps,
}
use pgloom_engineering.Tests.Samples.{task, done_task, store, driver}

abbrev stale_task : TaskRow
stale_task = record (task "t6" "engineering.implement" "implementer" running) {
  lease_expires_at = some 3;
}

abbrev crashing : Store
crashing = store (stale_task ∷ done_task ∷ [])

recover_stale_running_tasks-clears_example :
    All
      (λ t. is_stale 60 crashing.now t ≡ false)
      (recover_stale_running_tasks driver.rendering 60 crashing).0.tasks
recover_stale_running_tasks-clears_example =
    recover_stale_running_tasks-clears driver.rendering 60 crashing

recover_stale_running_tasks-keeps_example :
    Has done_task (recover_stale_running_tasks driver.rendering 60 crashing).0.tasks
unfolding recover_stale_running_tasks
recover_stale_running_tasks-keeps_example =
    recover_stale_running_tasks-keeps driver.rendering 60 crashing done_task (inr (inl refl)) refl
