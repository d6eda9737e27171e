-- ===== src/Examples/Commands.antt =====
-- Chat commands at work.
use zakros.Base.{
  ◌≤◌, ◌<>◌, string_equality, nat_equality, String, List, [], ◌∷◌, none, some, ◌≡◌, refl, arith, ok,
  err,
}
use zakros.Base.Text.{text_length, strip_prefix, is_space, trim_right}
use zakros.Storage.{Uuid}
use zakros.Hermes.{InboundMessage}
use zakros.Identity.{Identity, Role, admin, commissioner, active}
use zakros.Registry.{Registry}
use zakros.Minos.{Server, branch_missing, not_a_command}
use zakros.Minos.Dispatching.{Draws}
use zakros.Minos.Pairing.{Chance}
use zakros.Minos.Intake.{handle_inbound}
use zakros.Minos.Intake.Gates.{Permitted, handle_inbound-Permitted}
use zakros.Minos.Intake.Commands.{
  parse_commission_command, request_of, scan, match_token, nothing_found, Found,
}
use zakros.Minos.Intake.Commands.Rendering.{IsBare, IsSummary, rendered, parse-rendered}
use zakros.Minos.Intake.Commands.Termination.{scan-stops}
use zakros.Examples.Setup.{environment, unicode, server_of}

abbrev options : String
options = "repo=\"git@host:a b\" branch=main fix the build"

abbrev command : String
command = "/commission " <> options

abbrev wanted : Found
wanted = record { repo = "git@host:a b"; branch = "main"; base = "" }

command_parsed : parse_commission_command command ≡ ok (request_of wanted "fix the build")
unfolding parse_commission_command scan match_token strip_prefix text_length
command_parsed = refl

branch_forgotten : parse_commission_command "/commission repo=r fix" ≡ err branch_missing
unfolding parse_commission_command strip_prefix text_length
branch_forgotten = refl

chatter : parse_commission_command "hello" ≡ err not_a_command
unfolding parse_commission_command strip_prefix
chatter = refl

options_short : text_length options ≤ 50
unfolding text_length
options_short = omega arith

scan-stops_example :
    (match_token (scan 50 options nothing_found).0 ≡ none)
    × (scan 60 options nothing_found ≡ scan 50 options nothing_found)
scan-stops_example = scan-stops 50 60 options nothing_found options_short (omega arith)

abbrev member : Uuid → String → Role → Identity
member id name role = record {
  id = id;
  surface = "discord";
  surface_id = name;
  role = role;
  status = active;
  capabilities_added = [];
  capabilities_removed = [];
  created_at = 5;
  updated_at = 5;
}

abbrev staff : Registry
staff = record {
  identities = (1, member 1 "ann" admin) ∷ (2, member 2 "cy" commissioner) ∷ [];
  pairings = [];
}

abbrev office : Server (List String)
office = record (server_of (record { tasks = [] }) []) { identities = staff }

abbrev from : String → String → InboundMessage
from name content = record {
  surface = "discord";
  thread_ref = "t0";
  surface_user_id = name;
  content = content;
  timestamp = 40;
}

abbrev draws : Draws
draws = record {
  task_id = 1;
  run_id = 2;
  jti = "j1";
  minted_at = 1;
  composed_at = 2;
  created_at = 3;
  inserted_at = 4;
  moved_at = 5;
  started_at = 6;
}

abbrev chance : Chance
chance = record { token = some "TOKEN"; fresh = 7; now = 40; registry_now = 41 }

handle_inbound-Permitted_example :
    Permitted environment draws chance
      (from "cy" command)
      office
      (handle_inbound environment unicode draws chance (from "cy" command) office)
handle_inbound-Permitted_example =
    handle_inbound-Permitted environment unicode draws chance (from "cy" command) office

repo-IsBare : IsBare "repo"
repo-IsBare = (refl, (refl, (refl, (refl, (refl, tt)))))

main-IsBare : IsBare "main"
main-IsBare = (refl, (refl, (refl, (refl, (refl, tt)))))

plain-IsSummary : IsSummary "fix the build"
unfolding is_space trim_right match_token strip_prefix
plain-IsSummary = record { starts = refl; ends = refl; plain = refl }

parse-rendered_example :
    parse_commission_command (rendered "repo" "main" "fix the build")
    ≡ ok (request_of (record { repo = "repo"; branch = "main"; base = "" }) "fix the build")
parse-rendered_example =
    parse-rendered "repo" "main" "fix the build" repo-IsBare main-IsBare plain-IsSummary
