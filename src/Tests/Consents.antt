-- ===== src/Tests/Consents.antt =====
-- A calendar consent from its start to its end.
use ai_phone_plattform.Prelude.{refl, true, none, some, [], ◌∷◌, Text, codes}
use ai_phone_plattform.Access.Tokens.{sign_calendar_state}
use ai_phone_plattform.Calendar.Connections.{
  OauthTokens, ConnectionStore, CalendarPort, Ivs, complete_oauth, new_connection,
}
use ai_phone_plattform.Calendar.Connections.Kept.{IsSound}
use ai_phone_plattform.Calendar.Connections.Served.{
  completes, connections-IsSound, IsCompleted, complete_oauth-IsCompleted,
}
use ai_phone_plattform.Crypto.{encrypt, decrypt}
use ai_phone_plattform.Tests.Callers.{plain, plain-Laws, twelve}
use ai_phone_plattform.Tests.Sessions.{written_down, written_down-Laws}

abbrev tokens : OauthTokens
tokens = record {
  access_token = codes "access";
  refresh_token = some (codes "refresh");
  expires_at = some 3600000;
  account_email = some (codes "team@b.de");
  scope = none;
}

abbrev google : Text → CalendarPort
google provider = record {
  exchange_code = λ code. some tokens;
  refresh = λ token. some tokens;
  lists_calendars = λ token. true;
}

abbrev ivs : Ivs
ivs = record { access = twelve; refresh = twelve }

-- another tenant is connected
abbrev store : ConnectionStore
store = record {
  rows = new_connection plain ivs (codes "t2") (codes "google") tokens 1 ∷ [];
  next_id = 2;
}

abbrev state_token : Text
state_token =
    sign_calendar_state written_down 0
      (record { tenant_id = codes "t1"; user_id = codes "u1"; provider = some (codes "google") })

store-IsSound : IsSound plain store
unfolding decrypt encrypt
store-IsSound = record { unique = (tt, tt); readable = ((refl, refl), tt) }

connections-IsSound_example :
    IsSound plain
      (complete_oauth plain written_down google ivs 5 state_token (codes "code") store).1
connections-IsSound_example =
    connections-IsSound plain plain-Laws {s = store}
      (completes written_down google ivs 5 state_token (codes "code") (refl, refl)) store-IsSound

complete_oauth-IsCompleted_example :
    IsCompleted plain written_down 5 state_token store
      (complete_oauth plain written_down google ivs 5 state_token (codes "code") store)
complete_oauth-IsCompleted_example =
    complete_oauth-IsCompleted plain written_down written_down-Laws google ivs 5 state_token
      (codes "code") store
