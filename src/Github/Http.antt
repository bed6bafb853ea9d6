-- ===== src/Github/Http.antt =====
-- The parts of net/http that internal/api/github uses: headers, requests and responses. A body is
-- the text that reading it gives.
use software_engineering_sch.Prelude.{ℕ, String, List, [], ◌∷◌, str_eq, if◌then◌else◌, Result}

-- The first value under each name; names are in their canonical form.
abbrev pub Header : Type 0
Header = List (String × String)

-- Header.Get: the empty text if the name is missing.
abbrev pub get_header : Header → String → String
get_header [] key = ""
get_header ((k, v) ∷ h) key = if str_eq k key then v else get_header h key

-- Header.Set
abbrev pub set_header : Header → String → String → Header
set_header [] key value = (key, value) ∷ []
set_header ((k, v) ∷ h) key value =
    let rest = set_header h key value in if str_eq k key then (key, value) ∷ h else (k, v) ∷ rest

pub record Request : Type 0 where
  pub method : String
  pub url : String
  pub header : Header

pub record HttpResponse : Type 0 where
  pub status_code : ℕ
  pub header : Header
  pub body : Result String

-- http.RoundTripper
abbrev pub RoundTripper : Type 0 → Type 0
RoundTripper W = Request → W → Result HttpResponse × W
