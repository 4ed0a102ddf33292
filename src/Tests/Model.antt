-- ===== src/Tests/Model.antt =====
-- src/core_py/model at concrete inputs.
use core_py.Base.{true, false, none, some, [], ◌∷◌, arith, ◌≡◌, refl, ok, err}
use core_py.Base.Text.{codes, str_eq}
use core_py.Base.Dict
use core_py.Context.{
  Var, use_context, repo_opt, text, current_context, copy_context, get_operator, get_tenant_id,
  get_app_id, get_pass_value, get_string_value,
}
use core_py.Context.Keys.{fixed_key, normalize_key, dash_char}
use core_py.Base.Text.{
  strip, lstrip, rstrip, rstrip_cons, is_space, lower, lower_char, starts_with, strip_prefix,
  remove_prefix,
}
use core_py.Model.RepoOpt.{RepoOpt, new_repo_opt}
use core_py.Model.Options.{
  Objects, IsValid, repo_opt_address, repo_opt_or_new, set_field, setting, set_field-read,
  set_field-scoped,
}
use core_py.Model.Audit.{
  Stamp, Entity, create_audit, update_lock_and_audit, missing_context_error, no_user,
}
use core_py.Model.Stamps.{create_audit_lem, update_lock_and_audit_lem, create_audit-missing, stamp}

abbrev isolate : RepoOpt → RepoOpt
isolate o = record o { data_isolation = codes "tenant" }

-- A context that has options, at address 0.
abbrev outer : Var
outer = some ((codes "repo-opt", repo_opt 0) ∷ [])

abbrev objects : Objects
objects = new_repo_opt ∷ []

valid : IsValid (outer, objects)
unfolding repo_opt_address current_context copy_context Dict.get str_eq
valid = omega arith

set_field-read_example :
    repo_opt_or_new (set_field isolate (outer, objects))
    ≡ isolate (repo_opt_or_new (outer, objects))
set_field-read_example = set_field-read isolate (outer, objects) valid

set_field-scoped_example :
    (after : Objects) × (use_context none (setting isolate objects) outer ≡ (ok after, outer))
    × (repo_opt_or_new (outer, after) ≡ isolate (repo_opt_or_new (outer, objects)))
unfolding repo_opt_address current_context copy_context Dict.get str_eq
set_field-scoped_example = set_field-scoped isolate outer objects valid

abbrev signed_in : Var
signed_in = some (
    (codes "ofa-pass-operator", text (codes "u"))
    ∷ (codes "ofa-pass-tenant-id", text (codes "t"))
    ∷ (codes "ofa-pass-app-id", text (codes "a"))
    ∷ [])

has_operator : get_operator signed_in ≡ (codes "u", true)
unfolding get_operator get_pass_value get_string_value fixed_key normalize_key dash_char strip
    lstrip rstrip rstrip_cons is_space lower lower_char starts_with strip_prefix remove_prefix
    current_context copy_context Dict.get str_eq
has_operator = refl

has_tenant : get_tenant_id signed_in ≡ (codes "t", true)
unfolding get_tenant_id get_pass_value get_string_value fixed_key normalize_key dash_char strip
    lstrip rstrip rstrip_cons is_space lower lower_char starts_with strip_prefix remove_prefix
    current_context copy_context Dict.get str_eq
has_tenant = refl

has_app : get_app_id signed_in ≡ (codes "a", true)
unfolding get_app_id get_pass_value get_string_value fixed_key normalize_key dash_char strip lstrip
    rstrip rstrip_cons is_space lower lower_char starts_with strip_prefix remove_prefix
    current_context copy_context Dict.get str_eq
has_app = refl

abbrev blank : Stamp
blank = record { at = none; by = [] }

abbrev entity : Entity
entity = record {
  created = some blank;
  updated = some blank;
  deleted = none;
  tenant = some (record { tenant_id = []; app_id = [] });
}

create_audit_lem_example : create_audit signed_in 5 6 entity ≡ (
  ok tt,
  record {
    created = some (stamp (codes "u") 5);
    updated = some (stamp (codes "u") 6);
    deleted = none;
    tenant = some (record { tenant_id = codes "t"; app_id = codes "a" });
  },
)
create_audit_lem_example =
    create_audit_lem signed_in (codes "u") (codes "t") (codes "a") has_operator 5 6 entity
      has_tenant has_app

update_lock_and_audit_lem_example : update_lock_and_audit signed_in 9 none entity ≡ (
  ok (record { has_original_update = false; original_updated_at = none }),
  record entity { updated = some (stamp (codes "u") 9) },
)
update_lock_and_audit_lem_example =
    update_lock_and_audit_lem signed_in (codes "u") (codes "t") (codes "a") has_operator 9 none
      entity

lacks_operator : get_operator none ≡ ([], false)
unfolding get_operator get_pass_value get_string_value fixed_key normalize_key dash_char strip
    lstrip rstrip rstrip_cons is_space lower lower_char starts_with strip_prefix remove_prefix
    current_context copy_context Dict.get str_eq
lacks_operator = refl

create_audit-missing_example :
    create_audit none 5 6 entity ≡ (err (missing_context_error no_user), entity)
create_audit-missing_example = create_audit-missing none [] 5 6 entity blank lacks_operator refl
