-- ===== src/Base/Uuid.antt =====
-- The validation of ids, which the domain packages repeat: `validateUUID` trims the text first,
-- `validateUUIDString` and `validateOptionalUUID` take it as it is. `is_uuid` stands for `uuid.Parse`
-- of github.com/google/uuid: it says whether a text is parsed.
use mathlib.Core.Bool.{Bool, not}
use leadkart_go.Base.Tests.{if◌then◌else◌}
use leadkart_go.Base.Lists.{is_empty}
use leadkart_go.Base.Results.{Result, ok, ◌>>◌, fail_if}
use leadkart_go.Base.Text.{Str, trim_space}

unfoldable pub validate_uuid {ℓ} : {E : Type ℓ} → (Str → Bool) → E → Str → Result E (Unit {0})
validate_uuid is_uuid e val = do
  fail_if (is_empty (trim_space val)) e
  fail_if (not (is_uuid (trim_space val))) e
  ok tt

abbrev pub validate_uuid_string {ℓ} : {E : Type ℓ} → (Str → Bool) → E → Str → Result E (Unit {0})
validate_uuid_string is_uuid e val = do
  fail_if (is_empty val) e
  fail_if (not (is_uuid val)) e
  ok tt

abbrev pub validate_optional_uuid {ℓ} : {E : Type ℓ} → (Str → Bool) → E → Str → Result E (Unit {0})
validate_optional_uuid is_uuid e val =
    if is_empty val then ok tt else validate_uuid_string is_uuid e val
