-- ===== src/Minos/Webhooks/Reporting.antt =====
-- From the report of a pull request to its end (minos/core/api.go, handleReportPR and
-- handlePullRequestEvent).
use zakros.Base.{
  nat_equality, string_equality, ◌==◌, eqb_iff, String, Option, some, Bool, false, ◌≡◌, refl, sym,
  subst, arith, if◌then◌else◌,
}
use zakros.Base.Maps.{lookup, lookup-insert}
use zakros.Base.Clock.{Time}
use zakros.Storage.{Uuid, Task}
use zakros.Storage.Memstore.{set_task_pr, advance, records_pr, step}
use zakros.Storage.Memstore.Links.{IsLinked, step-IsLinked}
use zakros.Minos.{Server}
use zakros.Minos.Webhooks.{status, handle_report_pr, handle_pull_request_event}
use zakros.Minos.Webhooks.Finalizing.{IsLive, target, closing, handle_pull_request_event-finalizes}

abbrev pub linked_to : String → Task → Task
linked_to url t = record t { pr_url = some url }

module _ {Cluster : Type 0} where
  report-step :
      (id : Uuid) (url : String) (s : Server Cluster)
      → (handle_report_pr (some id) (some url) s).1 ≡ status "ok"
      → (handle_report_pr (some id) (some url) s).0.store ≡ step (records_pr id url) s.store
  unfolding handle_report_pr step
  report-step id url s fine = ground arith

  report-lookup :
      (id : Uuid) (url : String) (s : Server Cluster) (t : Task)
      → lookup id s.store.tasks ≡ some t
      → (handle_report_pr (some id) (some url) s).1 ≡ status "ok"
      → lookup id (handle_report_pr (some id) (some url) s).0.store.tasks ≡ some (linked_to url t)
  unfolding handle_report_pr set_task_pr
  report-lookup id url s t e fine =
      ground (arith, lookup-insert id id (linked_to url t) s.store.tasks, eqb_iff id id)

  report-others :
      (id j : Uuid) (url : String) (s : Server Cluster) (t : Task)
      → lookup id s.store.tasks ≡ some t
      → (handle_report_pr (some id) (some url) s).1 ≡ status "ok"
      → (id == j) ≡ false
      → lookup j (handle_report_pr (some id) (some url) s).0.store.tasks ≡ lookup j s.store.tasks
  unfolding handle_report_pr set_task_pr
  report-others id j url s t e fine apart =
      ground (arith, lookup-insert id j (linked_to url t) s.store.tasks)

  -- In a store that the writes can reach, after the report of a pull request for a task that runs or is
  -- in review is accepted, closing the pull request leaves the task linked to it and stamped as completed
  -- if it was merged and as failed otherwise, and leaves every other task as it was before the report.
  pub report-closes :
      (id : Uuid) (url : String) (merged : Bool) (wall : Time) (refusal : Option String)
      (s : Server Cluster) (t : Task)
      → IsLinked s.store
      → lookup id s.store.tasks ≡ some t
      → IsLive t.state
      → (handle_report_pr (some id) (some url) s).1 ≡ status "ok"
      → let reported = (handle_report_pr (some id) (some url) s).0 in
        let r = handle_pull_request_event (some (closing url merged)) wall refusal reported in
        (r.1 ≡ status (if merged then "completed" else "failed"))
        × ((j : Uuid)
            → lookup j r.0.store.tasks ≡ (
                if id == j
                then some (advance (target merged) wall (linked_to url t))
                else lookup j s.store.tasks))
  report-closes id url merged wall refusal s t h e live fine =
      let reported = (handle_report_pr (some id) (some url) s).0 in
      let own : t.id ≡ id = h.ids id t e in
      let linked =
        subst IsLinked (sym (report-step id url s fine))
          (step-IsLinked (records_pr id url) s.store tt h) in
      let found =
        subst (λ i. lookup i reported.store.tasks ≡ some (linked_to url t)) (sym own)
          (report-lookup id url s t e fine) in
      let (answer, tasks, _) =
        handle_pull_request_event-finalizes (linked_to url t) url merged merged wall wall refusal
          refusal reported linked found refl live in
      (answer, λ j. ground (arith, tasks j, own, report-others id j url s t e fine))
