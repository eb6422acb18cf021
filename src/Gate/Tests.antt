-- ===== src/Gate/Tests.antt =====
-- Runs of the gate, and the gate's theorems at concrete kernels.
use i3ml_os.Prelude.{
  ℕ, ◌+◌, ◌≤◌, ◌<◌, ◌≡◌, ◌≢◌, refl, Bool, true, false, Option, none, some, [], ◌∷◌, arith, find, ok,
  err,
}
use i3ml_os.Text.{literal}
use i3ml_os.Sijil.{ring_new}
use i3ml_os.Sijil.Label.{Label}
use i3ml_os.Sijil.Label
use i3ml_os.Aman
use i3ml_os.Aman.{Broker, Slot, slot_of, needs_approval}
use i3ml_os.Aman.Authority.{send, spend, risk, is_subset_of}
use i3ml_os.Gate.Acb.{State, Agent, Progress, Context, budget_new, carve, remaining_micro_dollars}
use i3ml_os.Gate.Kernel.{Kernel, ApprovalRequest, find_agent, names, now, journal}
use i3ml_os.Gate.Verbs.{newborn, delegate, fund, commit, spawn}
use i3ml_os.Gate.Verbs.Delegation.{Delegation, delegate-Delegation}
use i3ml_os.Gate.Invoke.{has_approval, invoke, settle, price_of}
use i3ml_os.Gate.Invoke.Consent.{Crossing, invoke-Crossing, invoke_once}
use i3ml_os.Gate.Budget.{carve_conserves}
use i3ml_os.Gate.Approvals.{request_approval, answer_approval}
use i3ml_os.Gate.Approvals.Bounds.{IsBounded, request_approval-IsBounded}
use i3ml_os.Gate.Approvals.Answers.{answer, resumed, answer_approval-resumed, answer_approval_twice}
use i3ml_os.Gate.Scheduler.{
  Outcome, next_runnable, judge, run_until_idle, run_loop, turn, close_turn, report, dispatch,
  min_by_deadline, min_from, is_ready,
}
use i3ml_os.Gate.Scheduler.Order.{Chosen, next_runnable-Chosen, next_runnable-none}
use i3ml_os.Gate.Scheduler.Runs.{Runs, run_until_idle-Runs}

-- Agent 1 may send, has a thousand micro-dollars, and waits for request 1.
abbrev sender : Agent
sender = record (newborn 1 (literal "send") 0 (budget_new 1_000 0) 5 7) { awaiting = some 1 }

abbrev rival : Agent
rival = newborn 2 (literal "rival") 0 (budget_new 50 0) 3 8

abbrev question : Option Bool → ApprovalRequest
question answered = record {
  id = 1;
  agent = 1;
  capability = 0;
  what = Label.new (literal "send");
  note = Label.new (literal "please");
  answered = answered;
  consumed = false;
}

abbrev kernel : Option Bool → Kernel
kernel answered = record {
  broker = record {
    slots = slot_of (send false) 1 none ∷ slot_of (spend 300) 1 none ∷ [];
    log = record { ring = ring_new; clock = record { reading = λ n. n; reads = 0 } };
  };
  supervisor = record {
    agents = sender ∷ rival ∷ [];
    approvals = question answered ∷ [];
    next_agent_id = 3;
    next_approval_id = 2;
  };
  ticks = 0;
}

abbrev approved_kernel : Kernel
approved_kernel = kernel (some true)

abbrev open_kernel : Kernel
open_kernel = kernel none

first_invocation : (invoke 1 0 approved_kernel).0 ≡ ok (send false)
unfolding invoke Aman.authorize Aman.permitted Aman.lookup has_approval settle price_of risk
first_invocation = refl

without_an_answer : (invoke 1 0 open_kernel).0 ≡ err needs_approval
unfolding invoke Aman.authorize Aman.permitted Aman.lookup has_approval settle price_of risk
without_an_answer = refl

invoke-Crossing_example : Crossing approved_kernel 1 0 (invoke 1 0 approved_kernel)
invoke-Crossing_example = invoke-Crossing 1 0 approved_kernel

invoke_once_example : (invoke 1 0 (invoke 1 0 approved_kernel).1).0 ≡ err needs_approval
unfolding risk
invoke_once_example = invoke_once 1 0 approved_kernel (send false) first_invocation refl

delegate-Delegation_example :
    Delegation 1
      (literal "child")
      1
      (spend 100)
      0
      9
      400
      open_kernel
      (delegate 1 (literal "child") 1 (spend 100) 400 0 9 open_kernel)
delegate-Delegation_example =
    delegate-Delegation 1 (literal "child") 1 (spend 100) 0 9 400 open_kernel

delegation_succeeds : (delegate 1 (literal "child") 1 (spend 100) 400 0 9 open_kernel).0 ≡ ok 3
unfolding delegate Aman.can_delegate Aman.delegable Aman.lookup is_subset_of fund commit spawn carve
    now journal Aman.delegate Aman.derive
delegation_succeeds = refl

carve_conserves_example :
    (remaining_micro_dollars (record {
      micro_dollars = 100;
      spent_micro_dollars = 40;
      wall_microseconds = 50;
      used_microseconds = 20;
    })
        + remaining_micro_dollars (budget_new 30 10)
      ≡ 90)
    × (remaining_micro_dollars (budget_new 30 10) ≡ 30)
    × ((budget_new 30 10).micro_dollars ≡ 30)
    × ((budget_new 30 10).spent_micro_dollars ≡ 0)
    × ((budget_new 30 10).used_microseconds ≡ 0)
    × (◌≡◌ {A = ℕ} 40 (10 + 30))
    × (◌≡◌ {A = ℕ} 100 100)
    × (◌≡◌ {A = ℕ} 50 50)
    × (◌≡◌ {A = ℕ} 10 10)
    × (◌≢◌ {A = ℕ} 50 0 → (0 < 10) × (◌≡◌ {A = ℕ} 20 (10 + 10)) × (20 ≤ 50))
unfolding carve
carve_conserves_example =
    carve_conserves
      (record {
        micro_dollars = 100;
        spent_micro_dollars = 10;
        wall_microseconds = 50;
        used_microseconds = 10;
      })
      (budget_new 30 10)
      (record {
        micro_dollars = 100;
        spent_micro_dollars = 40;
        wall_microseconds = 50;
        used_microseconds = 20;
      })
      30 10 refl

request_approval-IsBounded_example :
    IsBounded (request_approval 1 1 (literal "now") open_kernel).1.supervisor.approvals
request_approval-IsBounded_example = request_approval-IsBounded 1 1 (literal "now") open_kernel few
  where
    few : IsBounded open_kernel.supervisor.approvals
    few agent = ground arith

answer_approval-resumed_example :
    (find (names 1) (answer_approval 1 false open_kernel).supervisor.approvals
      ≡ some (answer false (question none)))
    × (find_agent 1 (answer_approval 1 false open_kernel)
        ≡ some (resumed 1 false (now open_kernel).0 sender))
answer_approval-resumed_example =
    answer_approval-resumed 1 false open_kernel (question none) sender refl refl refl

answer_approval_twice_example :
    answer_approval 1 true (answer_approval 1 false open_kernel)
    ≡ answer_approval 1 false open_kernel
answer_approval_twice_example = answer_approval_twice 1 false true open_kernel

the_earlier_deadline : next_runnable open_kernel ≡ some 2
unfolding next_runnable min_by_deadline min_from
the_earlier_deadline = refl

next_runnable-Chosen_example : (a : Agent) × (a.id ≡ 2) × Chosen (sender ∷ rival ∷ []) a
next_runnable-Chosen_example = next_runnable-Chosen open_kernel 2 the_earlier_deadline

abbrev idle_kernel : Kernel
idle_kernel = record open_kernel {
  supervisor = record (open_kernel.supervisor) {
    agents = record sender { state = State.suspended } ∷ [];
  };
}

nobody_left : next_runnable idle_kernel ≡ none
unfolding next_runnable min_by_deadline min_from
nobody_left = refl

next_runnable-none_example : is_ready (record sender { state = State.suspended }) ≡ false
next_runnable-none_example =
    next_runnable-none idle_kernel 0 (record sender { state = State.suspended }) nobody_left refl

-- Every agent reports that it is done.
abbrev finishing : ℕ → Context → Kernel → Outcome
finishing step c k = record { progress = Progress.done; cursor = c.cursor; kernel = k }

both_finish : (run_until_idle finishing 5 open_kernel).0 ≡ 2
unfolding run_until_idle run_loop turn next_runnable min_by_deadline min_from judge dispatch
    close_turn report now journal
both_finish = refl

run_until_idle-Runs_example : Runs finishing 5 open_kernel (run_until_idle finishing 5 open_kernel)
run_until_idle-Runs_example = run_until_idle-Runs finishing 5 open_kernel
