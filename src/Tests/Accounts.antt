-- ===== src/Tests/Accounts.antt =====
-- Requests to the local accounts on a fixed site.
use cairnobs.Access.Roles.{Identity, editor, owner, satisfies, role_rank, require_role}
use cairnobs.Accounts.Handlers
use cairnobs.Accounts.Handlers.{Call, Env, role_of_text, keep_an_owner, would_remove_last_owner}
use cairnobs.Accounts.Invariant.{Inv}
use cairnobs.Accounts.Server.{Request, set_role, serve, serve_all, dispatch, authorized}
use cairnobs.Accounts.Sound.{serve_all-Inv, Opens, authorize-current}
use cairnobs.Accounts.Store
use cairnobs.Accounts.Store.{
  Site, UserRow, Membership, SessionRow, Credentials, default_tenant_id, is_member, role_of,
  authorize, by_token, credential_from_request,
}
use cairnobs.Base.{
  ◌≤◌, true, List, [], ◌∷◌, some, ◌≡◌, refl, arith, Text, codes, count_if, find_if, remove_if,
  update_if, any, text_eq, is_empty,
}
use cairnobs.Base.Results.{ok}

abbrev ann : UserRow
ann = record {
  id = codes "1";
  username = some (codes "ann");
  password_hash = [];
  display_timezone = codes "UTC";
}

abbrev bob : UserRow
bob = record {
  id = codes "2";
  username = some (codes "bob");
  password_hash = [];
  display_timezone = codes "UTC";
}

-- The hash of a token is the token with an x in front.
abbrev hash : Text → Text
hash t = b'x' ∷ t

-- ann is the owner, bob an editor, and both have a session.
abbrev two_users : Site
two_users = record {
  users = ann ∷ bob ∷ [];
  memberships =
      record { tenant_id = default_tenant_id; user_id = codes "1"; role = owner }
      ∷ record { tenant_id = default_tenant_id; user_id = codes "2"; role = editor }
      ∷ [];
  sessions =
      record {
        user_id = codes "1";
        tenant_id = default_tenant_id;
        role = owner;
        token_hash = codes "xa";
        expires_at = 100;
      }
      ∷ record {
        user_id = codes "2";
        tenant_id = default_tenant_id;
        role = editor;
        token_hash = codes "xb";
        expires_at = 100;
      }
      ∷ [];
  attempts = λ _. [];
}

two_users-Inv : Inv two_users
unfolding count_if find_if text_eq
two_users-Inv = record { one_each = one_each; owned = omega arith; current = (refl, (refl, tt)) }
  where
    one_each : (id : Text) → count_if (is_member id) two_users.memberships ≤ 1
    one_each [] = omega arith
    one_each (c ∷ []) = ground arith
    one_each (c ∷ d ∷ s) = ground arith

abbrev env : Env
env = record {
  is_up = λ _. true;
  now = 10;
  session_ttl = 1000;
  fresh_id = codes "3";
  fresh_token = some (codes "c");
  hash_token = hash;
  hash_password = λ p. some p;
  compare_password = λ h p. text_eq h p;
  is_location = λ _. true;
}

abbrev as_ann : Credentials
as_ann = record { authorization = codes "Bearer a"; cookie = [] }

abbrev as_bob : Credentials
as_bob = record { authorization = []; cookie = codes "b" }

-- The owner makes an admin of the editor, and then tries to give her own role up.
abbrev two_requests : List (Env × (Credentials × Request))
two_requests =
    (env, (as_ann, set_role (codes "2") (some (codes "admin"))))
    ∷ (env, (as_ann, set_role (codes "1") (some (codes "viewer"))))
    ∷ []

serve_all-Inv_example : Inv (serve_all two_requests two_users)
serve_all-Inv_example = serve_all-Inv two_requests two_users two_users-Inv

abbrev bobs_identity : Identity
bobs_identity = record { tenant_id = default_tenant_id; user_id = codes "2"; role = editor }

authorize_run : authorize hash 10 as_bob two_users ≡ ok bobs_identity
unfolding authorize by_token credential_from_request Store.get_session find_if text_eq is_empty
authorize_run = refl

authorize-current_example : (s : SessionRow) × Opens hash 10 as_bob two_users bobs_identity s
authorize-current_example =
    authorize-current hash 10 as_bob two_users bobs_identity two_users-Inv authorize_run

abbrev bob_is_admin : Request
bob_is_admin = set_role (codes "2") (some (codes "admin"))

-- A change of role ends the sessions of the user.
set_role_run :
    (serve env as_ann bob_is_admin two_users).1.sessions
    ≡ record {
      user_id = codes "1";
      tenant_id = default_tenant_id;
      role = owner;
      token_hash = codes "xa";
      expires_at = 100;
    }
      ∷ []
unfolding serve dispatch authorized authorize by_token credential_from_request Store.get_session
    Store.set_role Store.get_user_by_id Handlers.handle_set_role keep_an_owner role_of_text role_of
    find_if remove_if update_if any text_eq satisfies role_rank require_role is_empty
set_role_run = refl
