-- ===== src/Update/Http.antt =====
-- internal/core/update: the releases of GitHub and the requests for them. What the HTTP library and the
-- JSON decoder answer is a parameter.
use mole_port.Base.{
  List, Option, String, if◌then◌else◌, itoa, leb, length, none, some, take, ℕ, ◌<>◌, ◌==◌,
}
use mole_port.Core.Errors.{Error, Result, check_as, err, ok, other, wrap}
use mole_port.Core.Errors.{◌>>=◌}
use mole_port.Core.Errors.{◌>>◌}

-- githubReleaseAsset
pub record GithubReleaseAsset : Type 0 where
  pub name : String
  pub browser_download_url : String

-- githubRelease
pub record GithubRelease : Type 0 where
  pub tag_name : String
  pub html_url : String
  pub assets : List GithubReleaseAsset

-- A request with the headers that are set, "" for one that is not.
pub record Request : Type 0 where
  pub url : String
  pub user_agent : String
  pub accept : String

-- The bytes of a body, and the error that ends them where it is not the end of the file.
abbrev pub Body : Type 0
Body = List ℕ × Option Error

pub record Response : Type 0 where
  pub status_code : ℕ
  pub body : Body

-- `new_request` is http.NewRequestWithContext, `do_request` is `httpClient.Do` during one call,
-- `decode` is the decoder of JSON on a body.
pub record Http : Type 0 where
  pub new_request : String → Option Error
  pub do_request : Request → Result Response
  pub decode : Body → Result GithubRelease

-- http.StatusOK
abbrev pub status_ok : ℕ
status_ok = 200

-- io.LimitReader
unfoldable pub limit_reader : Body → ℕ → Body
limit_reader (bytes, e) n = if leb n (length bytes) then (take n bytes, none) else (bytes, e)

-- io.ReadAll
unfoldable pub read_all : Body → Result (List ℕ)
read_all (bytes, none) = ok bytes
read_all (bytes, some e) = err e

-- `if err != nil { return fmt.Errorf("<s>: %w", err) }` for a call with a value
abbrev pub as_error {ℓ} : {A : Type ℓ} → String → Result A → Result A
as_error s (err e) = err (wrap s e)
as_error s (ok a) = ok a

-- The request, its answer and the test of its status, with the words of the errors.
unfoldable pub fetch : Http → Request → String → String → Result Body
fetch http r failed status =
    check_as "create request" (http.new_request r.url)
    >> as_error failed (http.do_request r)
    >>= λ resp.
        if resp.status_code == status_ok
        then ok resp.body
        else err (other (status <> itoa resp.status_code))

-- maxReleaseResponseSize
abbrev pub max_release_response_size : ℕ
max_release_response_size = 1048576

-- What fetchLatest and fetchRelease share
unfoldable pub fetch_decoded : Http → Request → String → Result GithubRelease
unfolding fetch limit_reader
fetch_decoded http r failed = fetch http r failed "GitHub API returned status " >>= λ body.
    as_error "decode response" (http.decode (limit_reader body max_release_response_size))
