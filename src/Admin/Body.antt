-- ===== src/Admin/Body.antt =====
-- The untyped bodies of the administration's updates (`Record<string, unknown>`).
use clickwrap.Prelude.{Bool, true, false, String, ◌==◌, String_eq, trim, if◌then◌else◌}

-- A field of a body: not there, null, a text, or any other value.
pub data Field : Type 0 where
  absent null other : Field
  text : String → Field

-- `hasOwnProperty.call(body, field)`
abbrev pub is_present : Field → Bool
is_present absent = false
is_present _ = true

-- `typeof body.name === 'string' && body.name.trim() !== '' ? body.name : current`
unfoldable pub name_or : Field → String → String
name_or (text name) current = if trim name == "" then current else name
name_or _ current = current
