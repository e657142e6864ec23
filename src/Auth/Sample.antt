-- ===== src/Auth/Sample.antt =====
-- Tables that are lists, the length of a text as its digest, and a state with no rows.
use stow.Prelude.{some, [], length}
use stow.Prelude.Table.{list_table}
use stow.Prelude.Rows.{list_rows}
use stow.Auth.Sessions.{hash_of, user_id_of, AuthConfig, AuthTables, Sessions}
use stow.Auth.State.{owner_of, credential_id_of, AccountTables, AuthState}

abbrev pub length_config : AuthConfig
length_config = record {
  sha256 = λ raw. length raw;
  sign = λ i a. i;
  refresh_token_ttl_days = some 7;
}

abbrev pub list_tables : AuthTables
list_tables = record { tokens = list_rows hash_of; users = list_rows user_id_of }

abbrev pub list_accounts : AccountTables
list_accounts = record {
  auth = list_tables;
  preferences = list_table owner_of;
  credentials = list_table credential_id_of;
}

abbrev pub no_sessions : Sessions list_tables
no_sessions = record { tokens = []; users = []; audit_events = [] }

abbrev pub no_accounts : AuthState list_accounts
no_accounts = record {
  sessions = no_sessions;
  preferences = [];
  credentials = [];
  challenges = [];
  passkey_challenges = [];
  registration_challenges = [];
}
