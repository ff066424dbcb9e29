-- ===== src/Connections/Tests.antt =====
-- A user with two connections, and a cipher that puts a letter before a text.
use Prim.Native.String.{String}
use text.Mathlib.TextLemmas.{cons-ne-nil}
use text.Mathlib.TextEquality.{eq_iff}
use spoutbreeze_backend.Prelude.{◌≡◌, ◌<◌, refl, Option, none, some, List, [], ◌∷◌, arith, keep}
use spoutbreeze_backend.Prelude.Session.{ok, open_on}
use spoutbreeze_backend.Connections.Store.{Fernet, Connection, Tables, is_expired, index_refuses}
use spoutbreeze_backend.Connections.Service.{
  Account, TokenData, Platforms, Token, saved_row, save_existing, save_first, get_active_connection,
  refresh_connection, revoke_connection, unless_expired, has_refresher, token_of, call_refresher,
  save_connection, get_valid_token, refreshed_tokens,
}
use spoutbreeze_backend.Connections.Service.Valid.{get_valid_token-unexpired}
use spoutbreeze_backend.Connections.Service.Saved.{Lawful, get_valid_token-save_connection}
use spoutbreeze_backend.Connections.Refresh.{is_due, refresh_all, refresh_expiring_tokens}
use spoutbreeze_backend.Connections.Refresh.Done.{Answered, refresh_expiring_tokens-done}
use spoutbreeze_backend.Connections.Calls.{Call, save, valid, revoke, refresh, run}
use spoutbreeze_backend.Connections.Calls.Accepted.{save_connection-run}

abbrev sealed : String → String
sealed s = String.◌∷◌ "x" s

abbrev opened : String → Option String
opened String.[] = none
opened (String.◌∷◌ c s) = some s

abbrev cipher : Fernet
cipher = record { encrypt_token = sealed; decrypt_token = opened }

cipher-Lawful : Lawful cipher
cipher-Lawful = record {
  decrypts = λ x. refl;
  made = λ x. ground (arith, eq_iff (sealed x) "", cons-ne-nil "x" x);
}

abbrev fresh : TokenData
fresh = record { access_token = some "new"; refresh_token = some "again"; expires_in = some 4000 }

abbrev answers : Platforms
answers p token = some fresh

abbrev twitch_row : Connection
twitch_row = record {
  id = 1;
  user_id = 7;
  provider = "twitch";
  provider_user_id = none;
  display_name = some "tv";
  access_token = "xold";
  refresh_token = some "xmore";
  scopes = none;
  expires_at = 1000;
  created_at = 0;
  updated_at = 0;
  revoked_at = none;
}

abbrev youtube_row : Connection
youtube_row = record twitch_row { id = 2; provider = "youtube"; expires_at = 9000 }

abbrev tables : Tables
tables = record { users = 7 ∷ []; connections = youtube_row ∷ twitch_row ∷ [] }

abbrev page : Account
page = record {
  user_id = 7;
  provider = "facebook_page";
  provider_user_id = some "p1";
  display_name = none;
}

abbrev tv : Account
tv = record { user_id = 7; provider = "twitch"; provider_user_id = none; display_name = none }

abbrev got : Token
got = record { access_token = "new"; refresh_token = some "again"; expires_at = 4950 }

-- The example is inside the last five minutes, so that the token is refreshed.
get_valid_token-unexpired_example : 900 < 4950
unfolding get_valid_token get_active_connection refresh_connection unless_expired has_refresher
    refreshed_tokens token_of call_refresher is_expired
get_valid_token-unexpired_example =
    get_valid_token-unexpired cipher 900 950 answers 7 "twitch" (open_on tables)
      (get_valid_token cipher 900 950 answers 7 "twitch" (open_on tables)).1 got (ground arith)
      (λ p token t e. ground (arith, e)) refl

get_valid_token-save_connection_example :
    get_valid_token cipher 400 400 answers 7 "twitch"
      (save_connection cipher 300 9 tv fresh "[]" (open_on tables)).1
    ≡ (
      ok (some (record { access_token = "new"; refresh_token = some "again"; expires_at = 4300 })),
      (save_connection cipher 300 9 tv fresh "[]" (open_on tables)).1,
    )
unfolding save_connection save_existing save_first index_refuses
get_valid_token-save_connection_example =
    get_valid_token-save_connection cipher 300 9 400 400 tv fresh "[]" "new" answers
      (open_on tables) (save_connection cipher 300 9 tv fresh "[]" (open_on tables)).1
      (saved_row cipher 300 tv fresh "new" "[]" twitch_row) cipher-Lawful refl refl refl
      (ground arith)

abbrev calls : List Call
calls =
    save 100 9 page fresh "[]"
    ∷ revoke 200 7 "twitch"
    ∷ refresh 300 310 answers
    ∷ valid 9000 9000 answers 7 "youtube"
    ∷ []

save_connection-run_example :
    (c : Connection) × ((save_connection cipher 9100 11 tv fresh "[]"
        (open_on (run cipher calls tables))).0
      ≡ ok c)
unfolding save_connection save_existing save_first index_refuses revoke_connection get_valid_token
    get_active_connection refresh_connection unless_expired has_refresher refreshed_tokens token_of
    call_refresher is_expired refresh_expiring_tokens refresh_all
save_connection-run_example =
    save_connection-run cipher calls tables 9100 11 tv fresh "[]" "new" (refl, (tt, (tt, (tt, tt))))
      ((refl, tt), (tt, tt)) refl refl refl refl

twitch-Answered : Answered cipher answers twitch_row
unfolding has_refresher refreshed_tokens call_refresher
twitch-Answered = record {
  cipher = "xmore";
  tokens = (fresh, "new");
  of_row = refl;
  not_empty = refl;
  known = refl;
  answers = refl;
  lasts = ground arith;
}

refresh_expiring_tokens-done_example :
    keep
      (is_due 300)
      (refresh_expiring_tokens cipher 300 310 answers (open_on tables)).1.work.connections
    ≡ []
refresh_expiring_tokens-done_example =
    refresh_expiring_tokens-done cipher 300 310 answers (open_on tables) (ground arith)
      (twitch-Answered, tt)
