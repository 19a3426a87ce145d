-- ===== src/Identity/Permission.antt =====
-- internal/identity/domain/permission/permission.go: the catalogue of permissions. A permission is its
-- name; that equal names are one pointer is not modelled.
pub mod Catalogue
use leadkart_go.Base.{
  ℕ, Bool, true, false, not, ◌&&◌, ◌||◌, List, [], ◌∷◌, Result, ok, err, ◌>>=◌, ◌>>◌, fail_if,
  is_empty, ltb, leb, ◌==◌, if◌then◌else◌,
}
use leadkart_go.Base.Text.{Str, codes, str_eq, trim_space, byte_len, is_blank}

-- `ErrUnknown`, `ErrEmpty` and `ErrFormat`.
pub data Err : Type 0 where
  unknown_name empty bad_format : Err

abbrev pub name_min_length : ℕ
name_min_length = 3

abbrev pub name_max_length : ℕ
name_max_length = 100

-- `allNames`.
abbrev pub all_names : List Str
all_names =
    codes "tenant.admin"
    ∷ codes "identity.meta.request_permission_elevation"
    ∷ codes "platform.tenants.view"
    ∷ codes "platform.tenants.create"
    ∷ codes "platform.tenants.manage"
    ∷ codes "platform.users.view"
    ∷ codes "platform.users.create"
    ∷ codes "platform.users.manage"
    ∷ codes "platform.roles.view"
    ∷ codes "platform.roles.manage"
    ∷ codes "identity.tenants.view"
    ∷ codes "identity.tenants.update"
    ∷ codes "identity.tenants.update_settings"
    ∷ codes "identity.tenants.suspend"
    ∷ codes "identity.tenants.activate"
    ∷ codes "identity.tenants.delete"
    ∷ codes "identity.users.view"
    ∷ codes "identity.users.create"
    ∷ codes "identity.users.update"
    ∷ codes "identity.users.deactivate"
    ∷ codes "identity.users.reactivate"
    ∷ codes "identity.users.unlock"
    ∷ codes "identity.users.anonymise"
    ∷ codes "identity.users.update_permissions"
    ∷ codes "identity.roles.view"
    ∷ codes "identity.roles.create"
    ∷ codes "identity.roles.update"
    ∷ codes "identity.roles.delete"
    ∷ codes "identity.roles.assign"
    ∷ codes "identity.roles.revoke"
    ∷ codes "identity.roles.approve"
    ∷ codes "crm.leads.read"
    ∷ codes "crm.leads.assign"
    ∷ codes "crm.leads.manage"
    ∷ codes "crm.leads.read_all"
    ∷ codes "platform.unverified_contacts.manage"
    ∷ codes "platform.marketplace.browse"
    ∷ codes "platform.marketplace.purchase"
    ∷ codes "platform.lead_credits.read"
    ∷ codes "platform.lead_credits.topup"
    ∷ codes "inventory.catalog.read"
    ∷ codes "inventory.catalog.manage"
    ∷ codes "inventory.stock.read"
    ∷ codes "inventory.stock.manage"
    ∷ codes "tasks.work_items.read"
    ∷ codes "tasks.work_items.read_all"
    ∷ codes "tasks.work_items.manage"
    ∷ codes "tasks.work_items.reassign"
    ∷ []

-- Whether a text is a key of the table that `ensureIntern` makes of the names.
abbrev pub is_listed : Str → List Str → Bool
is_listed name [] = false
is_listed name (n ∷ names) = str_eq n name || is_listed name names

-- `IsKnown`.
unfoldable pub is_known : Str → Bool
is_known name = is_listed name all_names

-- `TryFromConstant`.
unfoldable pub try_from_constant : Str → Result Err Str
unfolding is_known
try_from_constant name = do
  fail_if (is_blank name) empty
  fail_if (not (is_known (trim_space name))) unknown_name
  ok (trim_space name)

-- The characters that `Create` accepts: letters, digits, and the three signs `.`, `_` and `:`.
abbrev pub is_name_char : ℕ → Bool
is_name_char c =
    (leb 97 c && leb c 122)
    || (leb 65 c && leb c 90)
    || (leb 48 c && leb c 57)
    || c == 46
    || c == 95
    || c == 58

abbrev pub all_name_chars : Str → Bool
all_name_chars [] = true
all_name_chars (c ∷ s) = is_name_char c && all_name_chars s

-- `Create`.
unfoldable pub create : Str → Result Err Str
create name = do
  fail_if (is_empty (trim_space name)) empty
  fail_if (ltb (byte_len (trim_space name)) name_min_length) bad_format
  fail_if (ltb name_max_length (byte_len (trim_space name))) bad_format
  fail_if (not (all_name_chars (trim_space name))) bad_format
  ok (trim_space name)
