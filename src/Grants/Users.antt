-- ===== src/Grants/Users.antt =====
-- `fetch_update_user_auth_info` of api/src/auth.rs over the user and membership tables, which are an
-- interface.
use microticket.Prelude.{
  ℕ, Text, Bool, true, false, Option, none, some, List, ◌++◌, codes, Result, ok, err, ltb,
  if◌then◌else◌, ◌>>=◌, ◌>>◌, ensure, ◌+◌,
}
use microticket.Db.{
  Error, not_found, hydration, infrastructure, integrity, type_conversion, mutation_disabled,
}
use microticket.Mutations.{Membership}

pub data AuthError : Type 0 where
  permanent transient : Text → AuthError

-- The print of a database error.
abbrev pub to_string : Error → Text
to_string (not_found m) = codes "Record not found: " ++ m
to_string (hydration m) = codes "Hydration error: " ++ m
to_string (infrastructure m) = codes "Infrastructure error: " ++ m
to_string (integrity m) = codes "Data integrity error: " ++ m
to_string (type_conversion m) = codes "Data type conversion error: " ++ m
to_string mutation_disabled = codes "Mutation disabled"

abbrev pub is_not_found : Error → Bool
is_not_found (not_found m) = true
is_not_found _ = false

abbrev pub classify_db_err : Text → Error → AuthError
classify_db_err msg e =
    let text = msg ++ codes ": " ++ to_string e in
    if is_not_found e then permanent text else transient text

abbrev pub or_classify : {A : Type 0} → Text → Result Error A → Result AuthError A
or_classify msg (ok a) = ok a
or_classify msg (err e) = err (classify_db_err msg e)

abbrev pub or_permanent : {A : Type 0} → Text → Option A → Result AuthError A
or_permanent msg none = err (permanent msg)
or_permanent msg (some a) = ok a

pub record UserRow : Type 0 where
  pub enabled : Bool
  pub access_time : Option ℕ
  pub superuser : Bool

-- The answers of the calls on the user and membership tables.
pub record Users : Type 0 where
  pub get_user : Text → Result Error (Option UserRow)
  pub set_access_time : Text → Result Error Unit
  pub list_memberships_by_user : Text → Result Error (List Membership)

-- `AuthInfo::User`.
pub record AuthUser : Type 0 where
  pub id : Text
  pub memberships : List Membership
  pub is_superuser : Bool
  pub token_id : Option Text
  pub grant_id : Option Text

-- `is_none_or(|t| now > t + after)`
abbrev pub is_stale : ℕ → ℕ → Option ℕ → Bool
is_stale after now none = true
is_stale after now (some t) = ltb (t + after) now

-- A write of a last use that a read-only database skips.
abbrev pub or_skipped : Result Error Unit → Result AuthError Unit
or_skipped (ok u) = ok tt
or_skipped (err mutation_disabled) = ok tt
or_skipped (err (not_found m)) = err (transient (to_string (not_found m)))
or_skipped (err (hydration m)) = err (transient (to_string (hydration m)))
or_skipped (err (infrastructure m)) = err (transient (to_string (infrastructure m)))
or_skipped (err (integrity m)) = err (transient (to_string (integrity m)))
or_skipped (err (type_conversion m)) = err (transient (to_string (type_conversion m)))

abbrev pub auth_user :
    Text → UserRow → Result AuthError (List Membership) → Result AuthError AuthUser
auth_user user_id row (err e) = err e
auth_user user_id row (ok memberships) = ok record {
  id = user_id;
  memberships = memberships;
  is_superuser = row.superuser;
  token_id = none;
  grant_id = none;
}

abbrev pub enabled_user : Users → Text → ℕ → UserRow → Result AuthError AuthUser
enabled_user us user_id now row =
    ensure row.enabled (permanent (codes "User account is disabled"))
    >> (if is_stale 60 now row.access_time then or_skipped (us.set_access_time user_id) else ok tt)
    >> auth_user user_id row
        (or_classify (codes "fetch user memberships") (us.list_memberships_by_user user_id))

unfoldable pub fetch_update_user_auth_info : Users → Text → ℕ → Result AuthError AuthUser
fetch_update_user_auth_info us user_id now = do
  found ← or_classify (codes "fetch user from db") (us.get_user user_id)
  row ← or_permanent (codes "User not found") found
  enabled_user us user_id now row
