-- ===== src/Application/AgentTurn/Granting.antt =====
-- application/agent/use_cases.py: a turn that goes on from the idempotency check to its start.
use nexabot.Prelude.{◌≡◌, refl, String, Option, none, some}
use nexabot.Database.World.{World}
use nexabot.Application.AgentTurn.Command.{RunAgentTurnCommand, Claim}
use nexabot.Application.AgentTurn.Phases.{claimed, check_idempotency}
use nexabot.Application.AgentTurn.Execute.{dispatch, run_claimed}
use nexabot.Exec.{ok}

-- The idempotency check, if there is a key, grants the claim.
abbrev pub Grants : Option String → Option Claim → World → World → Type 0
Grants none claim w w' = (claim ≡ none) × (w' ≡ w)
Grants (some key) claim w w' =
    (c : Claim) × (claim ≡ some c) × (check_idempotency key w ≡ (ok (claimed c), w'))

pub dispatches :
    (prompt : String) (command : RunAgentTurnCommand) (text : String) (key : Option String)
    (claim : Option Claim) (w w' : World)
    → Grants key claim w w'
    → dispatch prompt command text key w ≡ run_claimed prompt command text claim w'
dispatches prompt command text none claim w w' granted = rw (granted.0, granted.1) refl
dispatches prompt command text (some key) claim w w' granted = rw (granted.1, granted.2) refl
