-- ===== src/Credentials/Signature.antt =====
-- pkg/credentials/signature-type.go: the types of signatures and their names.
use mefs_sdk_go.Prelude.{◌≡◌, refl, sym, ap, ◌∙◌, Bool, true, false, ◌==◌, [], ◌∷◌, if◌then◌else◌}
use mefs_sdk_go.Prelude.Text.{Text, codes}

pub data SignatureType : Type 0 where
  signature_default : SignatureType
  signature_v4 : SignatureType
  signature_v2 : SignatureType
  signature_v4_streaming : SignatureType
  signature_anonymous : SignatureType

unfoldable pub is_v2 : SignatureType → Bool
is_v2 signature_v2 = true
is_v2 s = false

unfoldable pub is_v4 : SignatureType → Bool
is_v4 signature_v4 = true
is_v4 signature_default = true
is_v4 s = false

unfoldable pub is_streaming_v4 : SignatureType → Bool
is_streaming_v4 signature_v4_streaming = true
is_streaming_v4 s = false

unfoldable pub is_anonymous : SignatureType → Bool
is_anonymous signature_anonymous = true
is_anonymous s = false

-- `String`
unfoldable pub string : SignatureType → Text
string s =
    if is_v2 s
    then codes "S3v2"
    else if is_v4 s
    then codes "S3v4"
    else if is_streaming_v4 s
    then codes "S3v4Streaming"
    else codes "Anonymous"

-- The types but for the default, which stands for v4.
abbrev pub resolved : SignatureType → SignatureType
resolved signature_default = signature_v4
resolved s = s

named : Text → SignatureType
named [] = signature_anonymous
named (c ∷ []) = signature_anonymous
named (c ∷ d ∷ []) = signature_anonymous
named (c ∷ d ∷ e ∷ []) = signature_anonymous
named (c ∷ d ∷ e ∷ f ∷ []) = if f == 50 then signature_v2 else signature_v4
named (c ∷ d ∷ e ∷ f ∷ g ∷ t) = if f == 52 then signature_v4_streaming else signature_anonymous

string-named : (s : SignatureType) → named (string s) ≡ resolved s
unfolding named string is_v2 is_v4 is_streaming_v4
string-named signature_default = refl
string-named signature_v4 = refl
string-named signature_v2 = refl
string-named signature_v4_streaming = refl
string-named signature_anonymous = refl

-- The name of a signature type tells which type it is, but for the default one, which has the name
-- of v4.
pub string_injective : (s t : SignatureType) → string s ≡ string t → resolved s ≡ resolved t
string_injective s t e = sym (string-named s) ∙ ap named e ∙ string-named t
