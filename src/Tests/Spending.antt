-- ===== src/Tests/Spending.antt =====
-- Tests of app/cost/memory.py.
use llm_inference_autoscalin.Base.{
  ◌+◌, ◌≤◌, ◌≡◌, refl, none, [], ◌∷◌, arith, eq_iff, lookup, insert,
}
use llm_inference_autoscalin.Ledger.{
  Reservation, Ledger, entries, prune, spent, held, epsilon, reserve, Usage, settle,
}
use llm_inference_autoscalin.Ledger.Entries.{live, find}
use llm_inference_autoscalin.Ledger.Holds.{Outcome, reserve-Outcome}
use llm_inference_autoscalin.Ledger.Close.{HasHold}
use llm_inference_autoscalin.Ledger.Charge.{hold_of, settle-reserve}
use llm_inference_autoscalin.Ledger.Budget
use llm_inference_autoscalin.Ledger.Budget.{Run-live, settled_by, summary-settled}

-- A ledger with a window of 100 ticks, in which ann has spent 500 at tick 10.
abbrev ledger : Ledger
ledger = record {
  window = 100;
  spend = ("ann", record { at = 10; amount = 500; id = "a" } ∷ []) ∷ [];
  records = [];
}

abbrev use_of : Usage
use_of = record { model = "small"; input_tokens = 3; output_tokens = 7 }

-- The same with a hold of 300 for ann from tick 20 on.
abbrev holding : Ledger
holding = record ledger {
  spend =
      (
        "ann",
        record { at = 10; amount = 500; id = "a" }
            ∷ record { at = 20; amount = 300; id = "b" }
            ∷ [],
      )
      ∷ [];
}

abbrev hold : Reservation
hold = hold_of "ann" 300 20 "b"

ann-reserves : reserve ledger "ann" 300 1000 20 "b" ≡ (holding, held hold)
unfolding reserve prune entries lookup insert
ann-reserves = refl

ann-HasHold : HasHold holding hold 30 (record { at = 20; amount = 300; id = "b" })
unfolding find entries lookup
ann-HasHold = record { is_open = refl; found = refl; amount_of = refl; in_window = refl }

reserve-Outcome_example :
    Outcome ledger "ann" 600 1000 20 "b" (reserve ledger "ann" 600 1000 20 "b")
reserve-Outcome_example = reserve-Outcome ledger "ann" 600 1000 20 "b"

b-fresh : find "b" (entries ledger "ann") ≡ none
unfolding find entries lookup
b-fresh = refl

settle-reserve_example :
    live (settle holding hold 120 use_of 40).0 "ann" 40 ≡ live ledger "ann" 40 + 120
settle-reserve_example =
    settle-reserve ledger "ann" 300 1000 20 "b" 120 use_of 40 ann-reserves b-fresh (omega arith)
      (omega arith)

-- ann reserves 300, of which 120 are settled, while bob reserves and ann's first entry goes stale.
abbrev with_bob : Ledger
with_bob = (reserve ledger "bob" 900 1000 15 "c").0

abbrev with_both : Ledger
with_both = (reserve with_bob "ann" 300 1000 20 "b").0

both-HasHold : HasHold with_both hold 30 (record { at = 20; amount = 300; id = "b" })
unfolding find reserve prune entries lookup insert
both-HasHold = record { is_open = refl; found = refl; amount_of = refl; in_window = refl }

abbrev settled_both : Ledger
settled_both = (settle with_both hold 120 use_of 30).0

ann-Run : Budget.Run "ann" 1000 ledger 12 (spent settled_both "ann" 112).0 112
ann-Run =
    Budget.then_
      (Budget.then_
        (Budget.then_
          (Budget.then_
            (Budget.then_
              (Budget.then_
                (Budget.then_ (Budget.then_ Budget.start (Budget.wait ledger 12 15 (omega arith))) (
                  Budget.reserves_other ledger 15 "bob" 900 1000 "c"
                    (λ e. ground (arith, eq_iff "bob" "ann"))))
                (Budget.wait with_bob 15 20 (omega arith)))
              (Budget.reserves with_bob 20 300 "b"))
            (Budget.wait with_both 20 30 (omega arith)))
          (Budget.settles with_both 30 hold 120 use_of _ both-HasHold (omega arith)))
        (Budget.wait settled_both 30 112 (omega arith)))
      (Budget.read settled_both 112 "ann")

ledger-within : live ledger "ann" 12 ≤ 1000 + epsilon
unfolding live entries lookup
ledger-within = omega arith

Run-live_example : live (spent settled_both "ann" 112).0 "ann" 112 ≤ 1000 + epsilon
Run-live_example = Run-live "ann" 1000 ledger-within ann-Run

-- A ledger with three records.
abbrev recorded : Ledger
recorded = record ledger {
  records =
      record {
        user_id = "ann";
        model = "small";
        input_tokens = 1;
        output_tokens = 2;
        cost = 30;
        at = 5;
      }
      ∷ record {
        user_id = "bob";
        model = "small";
        input_tokens = 1;
        output_tokens = 2;
        cost = 40;
        at = 6;
      }
      ∷ record {
        user_id = "ann";
        model = "large";
        input_tokens = 1;
        output_tokens = 2;
        cost = 50;
        at = 7;
      }
      ∷ [];
}
