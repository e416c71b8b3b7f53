-- ===== src/Examples/Sessions.antt =====
-- A session that is to be cancelled.
use cadet.Shared.{refl, true, List, [], ◌∷◌, arith, eq_iff}
use cadet.Shared.Int.{pos}
use cadet.Text.{trim}
use cadet.Rows.Sessions.{AgentSessionRecord}
use cadet.Db.{Db, Context}
use cadet.System.{run}
use cadet.Sessions.{Edit, AllSpare, Pending, calls_of}
use cadet.Sessions.Cancel.{run-Pending}
use cadet.Examples.{tables, at, empty}

abbrev session : AgentSessionRecord
session = record {
  session_id = "s-1";
  operator_id = "op";
  agent_id = "saturn";
  sandbox_id = "box-1";
  repo_url = "";
  status = "running";
  cancel_requested = true;
  turn_count = 3;
  last_prompt = "go on";
  created_at_micros = pos 1;
  updated_at_micros = pos 2;
}

abbrev flagged : Db
flagged = record empty { agent_session = session ∷ record session { session_id = "s-2" } ∷ [] }

abbrev edits : List (Context × Edit)
edits =
    (at (pos 3), Edit.status "s-1" "sleeping")
    ∷ (at (pos 4), Edit.turn "s-2" "next")
    ∷ (at (pos 5), Edit.sandbox "s-1" "box-2")
    ∷ (at (pos 6), Edit.clear "s-3")
    ∷ []

edits-AllSpare : AllSpare "s-1" edits
unfolding trim
edits-AllSpare = (
  tt,
  (λ h. ground (arith, eq_iff "s-2" "s-1"), (tt, (λ h. ground (arith, eq_iff "s-3" "s-1"), tt))),
)

run-Pending_example : Pending "s-1" (run (calls_of edits) flagged)
run-Pending_example =
    run-Pending edits flagged edits-AllSpare
      (record { row = session; found = refl; flagged = refl })
