-- ===== src/Job/Privacy.antt =====
-- jobPrivacy.ts: no payload and no result of a job may have a field whose name tells of a secret
-- or of private content, at any depth. A value is a JSON value, a field's name its code points.
pub mod Laws
use Prim.Native.Char.{code}
use silo_core.Base.{
  ℕ, String, ◌+◌, Bool, true, false, not, ◌&&◌, ◌||◌, List, [], ◌∷◌, any, leb, ◌==◌, if◌then◌else◌,
}
use silo_core.Json.{Json, Items, Fields, array, object, nil, cons, end, field}
use silo_core.Errors.{Result, ok, err, invalid_input}

abbrev pub codes : String → List ℕ
codes String.[] = []
codes (String.◌∷◌ c s) = code c ∷ codes s

-- the flag `i`, on letters of ASCII
abbrev pub lower : ℕ → ℕ
lower c = if leb b'A' c && leb c b'Z' then c + 32 else c

-- A part of a pattern: a letter, or `[-_]?`.
pub data Piece : Type 0 where
  letter : ℕ → Piece
  separator : Piece

pub record Pattern : Type 0 where
  pub anchored : Bool
  pub pieces : List Piece

abbrev letters : List ℕ → List Piece → List Piece
letters [] rest = rest
letters (c ∷ cs) rest = letter c ∷ letters cs rest

-- `/first[-_]?second/i`
abbrev two_words : String → String → Pattern
two_words first second = record {
  anchored = false;
  pieces = letters (codes first) (separator ∷ letters (codes second) []);
}

-- `/word/i` and `/^word$/i`
abbrev word : String → Pattern
word s = record { anchored = false; pieces = letters (codes s) [] }

abbrev whole : String → Pattern
whole s = record { anchored = true; pieces = letters (codes s) [] }

abbrev pub secret_key_patterns : List Pattern
secret_key_patterns =
    two_words "api" "key"
    ∷ word "authorization"
    ∷ two_words "access" "token"
    ∷ two_words "refresh" "token"
    ∷ two_words "bearer" "token"
    ∷ word "password"
    ∷ word "secret"
    ∷ two_words "extra" "headers"
    ∷ []

abbrev pub private_content_key_patterns : List Pattern
private_content_key_patterns =
    whole "prompt"
    ∷ two_words "prompt" "text"
    ∷ two_words "assistant" "content"
    ∷ two_words "document" "content"
    ∷ two_words "message" "content"
    ∷ whole "content"
    ∷ []

-- The pieces match from here on, up to the end if the pattern is anchored.
pub match_here : Bool → List Piece → List ℕ → Bool
match_here anchored [] [] = true
match_here anchored [] (_ ∷ _) = not anchored
match_here anchored (letter p ∷ ps) [] = false
match_here anchored (letter p ∷ ps) (c ∷ s) = lower c == p && match_here anchored ps s
match_here anchored (separator ∷ ps) [] = match_here anchored ps []
match_here anchored (separator ∷ ps) (c ∷ s) =
    ((c == b'-' || c == b'_') && match_here anchored ps s) || match_here anchored ps (c ∷ s)

pub search_from : List Piece → List ℕ → Bool
search_from ps [] = match_here false ps []
search_from ps (c ∷ s) = match_here false ps (c ∷ s) || search_from ps s

-- `pattern.test(key)`
unfoldable pub test : String → Pattern → Bool
unfolding match_here search_from
test key p =
    if p.anchored then match_here true p.pieces (codes key) else search_from p.pieces (codes key)

unfoldable pub is_secret_key : String → Bool
unfolding test
is_secret_key key = any (test key) secret_key_patterns

unfoldable pub is_private_content_key : String → Bool
unfolding test
is_private_content_key key = any (test key) private_content_key_patterns

abbrev unsanitized : Result (Unit {0})
unsanitized = err (invalid_input "JOB_DATA_UNSANITIZED")

-- A statement after one that may throw.
infixl 5 ◌then_check◌
abbrev pub ◌then_check◌ : Result (Unit {0}) → Result (Unit {0}) → Result (Unit {0})
ok _ then_check r = r
err e then_check _ = err e

unfoldable mutual
  pub inspect_job_data : Json → Result (Unit {0})
  inspect_job_data (array items) = inspect_items items
  inspect_job_data (object fields) = inspect_fields fields
  inspect_job_data _ = ok tt

  pub inspect_items : Items → Result (Unit {0})
  inspect_items nil = ok tt
  inspect_items (cons item items) = inspect_job_data item then_check inspect_items items

  pub inspect_fields : Fields → Result (Unit {0})
  inspect_fields end = ok tt
  inspect_fields (field key nested fields) =
      (if is_secret_key key
        then unsanitized
        else if is_private_content_key key
        then unsanitized
        else inspect_job_data nested)
      then_check inspect_fields fields

unfoldable pub assert_job_data_is_sanitized : Json → Result (Unit {0})
unfolding inspect_job_data
assert_job_data_is_sanitized value = inspect_job_data value
