-- ===== src/Tests/Drain.antt =====
-- Tests of the draining part of app/service.py.
use llm_inference_autoscalin.Base.{◌≡◌, refl, true, false, none, [], ◌∷◌}
use llm_inference_autoscalin.Service.State.{Service}
use llm_inference_autoscalin.Service.Stream.{Progress}
use llm_inference_autoscalin.Service.Drain.{
  Task, run_task, IsDrained, testing, gathering, Draining, finalize_later, task_done, proceed,
  drain_settlements,
}
use llm_inference_autoscalin.Service.Drain.Runs.{Run, start, joins, ends, advances}
use llm_inference_autoscalin.Service.Drain.Returns.{drain_settlements-IsDrained}
use llm_inference_autoscalin.Tests.Routing.{small_decision}
use llm_inference_autoscalin.Tests.Serving.{world, request, service}

-- Two streams of a user, one of them cut short.
abbrev whole : Progress
whole = record { events = []; usage = none; pieces = "hi " ∷ "there" ∷ []; completed = true }

abbrev cut : Progress
cut = record { events = []; usage = none; pieces = "hi " ∷ []; completed = false }

abbrev task : Progress → Task
task p = record {
  world = world;
  request = request;
  decision = small_decision;
  reservation = record {
    user_id = "ann";
    amount = 100;
    created_at = 102;
    id = "a";
    closed = false;
  };
  progress = p;
}

abbrev occupied : Service
occupied = record service { gate = record service.gate { active = 2 } }

-- The whole stream is pending at first; the other one joins while the loop gathers.
abbrev at_first : Draining
at_first = record { service = occupied; pending = (task whole, false) ∷ []; phase = testing }

abbrev gathers : Draining
gathers = record { service = occupied; pending = (task whole, true) ∷ []; phase = gathering }

gathering-Run : Run at_first (task cut ∷ []) [] (finalize_later (task cut) gathers)
unfolding drain_settlements proceed
gathering-Run = joins (task cut) (advances start refl)

-- What each of the two has ended, the loop has tested twice.
abbrev settled : Draining
settled = record {
  service = run_task (task cut) (run_task (task whole) occupied);
  pending = [];
  phase = testing;
}

settled-Run : Run at_first (task cut ∷ []) (task cut ∷ task whole ∷ []) settled
unfolding drain_settlements proceed finalize_later task_done
settled-Run =
    advances
      (ends [] (task cut) true []
        (advances
          (advances (ends [] (task whole) true ((task cut, false) ∷ []) gathering-Run refl) refl)
          refl)
        refl)
      refl

settled_returns : drain_settlements settled ≡ none
unfolding drain_settlements proceed
settled_returns = refl

drain_settlements-IsDrained_example :
    IsDrained occupied settled.service (task whole ∷ task cut ∷ [])
drain_settlements-IsDrained_example =
    drain_settlements-IsDrained settled-Run settled_returns (refl, tt) (refl, tt)
