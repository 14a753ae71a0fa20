-- ===== src/Base/Merge.antt =====
-- What a partial update leaves of the old row: a field stays where the request has an empty text, or
-- no value.
use Prim.Native.String.{String}
use mathlib.Core.Option.{Option, none, some}
use text.Mathlib.Text.{◌==◌ as str_eq}
use service_api.Base.Tests.{if◌then◌else◌}

abbrev pub text_or : String → String → String
text_or new old = if str_eq new "" then old else new

abbrev pub value_or : {A : Type 0} → Option A → A → A
value_or none old = old
value_or (some new) old = new
