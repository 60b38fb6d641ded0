-- ===== src/Cli/Client.antt =====
-- cli/src/client.rs: the request that `HttpClient` sends, and what it makes of the response.
use Prim.Native.Char.{code}
use attow_nexus.Prelude.{
  ℕ, String, ◌<>◌, ◌&&◌, Option, none, some, [], ◌∷◌, eqb, leb, ltb, if◌then◌else◌, Result, ok, err,
  ok_or, concat,
}
use attow_nexus.Config.Load.{is_blank}
use attow_nexus.Platform.{Platform}
use attow_nexus.Json.{Value, null}

pub data Method : Type 0 where
  get post : Method

pub record HttpClient : Type 0 where
  pub base_url : String
  pub token : Option String

-- The request that is sent; the token goes into a bearer header.
pub record HttpRequest : Type 0 where
  pub method : Method
  pub url : String
  pub bearer : Option String
  pub body : Option Value

-- The response: its status code, the text of the status, and the body.
pub record HttpResponse : Type 0 where
  pub status : ℕ
  pub status_text : String
  pub text : String

-- `HttpClient::from_env`, from NEXUS_HTTP_URL and NEXUS_AUTH_TOKEN
pub from_env : Option String → Option String → HttpClient
from_env url token = record {
  base_url = elim url [ none ↦ "http://127.0.0.1:7822" | some found ↦ found ];
  token = elim token [ none ↦ none | some value ↦ if is_blank value then none else some value ];
}

-- `trim_end_matches('/')`: a slash goes when nothing else comes after it
trim_slashes : String → String
trim_slashes String.[] = ""
trim_slashes (String.◌∷◌ c s) =
    let rest = trim_slashes s in
    elim rest [
      | String.[] ↦ if eqb (code c) b'/' then "" else String.◌∷◌ c ""
      | String.◌∷◌ d t ↦ String.◌∷◌ c (String.◌∷◌ d t)
    ]

pub request : HttpClient → Method → String → Option Value → HttpRequest
unfolding trim_slashes
request client method path body = record {
  method = method;
  url = trim_slashes client.base_url <> path;
  bearer = client.token;
  body = body;
}

-- `status.is_success()`, and an empty body is null
pub answer : Platform → HttpResponse → Result Value
answer p r =
    if leb 200 r.status && ltb r.status 300
    then (if is_blank r.text then ok null else ok_or (p.from_str r.text) "invalid JSON")
    else err (concat ("daemon returned " ∷ r.status_text ∷ ": " ∷ r.text ∷ []))
