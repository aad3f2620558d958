-- ===== src/SingleFlight/Examples.antt =====
-- Two callers of one key, and one of another.
use server_scan.Prelude.{ℕ, true, false, ◌⊎◌, arith, none, ◌≡◌, refl}
use server_scan.SingleFlight.{
  Loop, coalesce, set_status, ended, result, cleanup, await_task, create_task, call, finish, clean,
  start, Run, here, then,
}
use server_scan.SingleFlight.Invariant.{is_pending, one_computation, cleaned_table_is_empty}
use server_scan.SingleFlight.Progress.{Answered, IsIdle, coalesce_shares, await_task-Answered}

abbrev one : Loop ℕ
unfolding coalesce
one = coalesce 0 "page" start

abbrev two : Loop ℕ
unfolding one
two = coalesce 1 "page" one

run_two : Run start two
unfolding coalesce
run_two = then (then here (call start 0 "page" refl)) (call one 1 "page" refl)

abbrev over : Loop ℕ
unfolding two cleanup
over = cleanup 0 (result 7) (set_status 0 (ended (result 7)) two)

run_over : Run start over
unfolding coalesce cleanup over
run_over =
    then (then run_two (finish two 0 (result 7) refl))
      (clean (set_status 0 (ended (result 7)) two) 0 (result 7) refl)

coalesce_shares_example :
    ((t : ℕ) × ((two.tasks t).key ≡ "page")
      × (is_pending (two.tasks t).status ≡ true)
      × (coalesce 2 "page" two ≡ await_task 2 "page" t two))
    ⊎ (IsIdle "page" two
        × (coalesce 2 "page" two ≡ await_task 2 "page" two.next (create_task "page" two)))
coalesce_shares_example = coalesce_shares two run_two 2 "page"

-- A caller that comes between the end of the computation and its done callback gets its result.
abbrev ended_already : Loop ℕ
ended_already = set_status 0 (ended (result 7)) two

shares_the_end : coalesce 2 "page" ended_already ≡ await_task 2 "page" 0 ended_already
unfolding coalesce two
shares_the_end = refl

one_computation_example : ◌≡◌ {A = ℕ} 0 0
unfolding coalesce
one_computation_example = one_computation two run_two 0 0 refl refl refl

await_task-Answered_example : Answered two 1 0 "page" (result 7)
unfolding coalesce
await_task-Answered_example = await_task-Answered two run_two 1 0 "page" (result 7) refl

over_cleaned : (t : ℕ) → is_pending (over.tasks t).status ≡ false
unfolding coalesce cleanup over
over_cleaned t = ground arith

cleaned_table_is_empty_example : over.inflight "page" ≡ none
unfolding coalesce cleanup
cleaned_table_is_empty_example = cleaned_table_is_empty over run_over over_cleaned "page"
