-- ===== src/Server/Query.antt =====
-- query.go: QUERY requests, whose body is the query string. `mime.ParseMediaType` and the reading of
-- the body are parameters.
use fizzbuzz.Prelude.{
  ◌≡◌, ◌↔◌, refl, ap, ◌∙◌, arith, Option, none, some, ℕ, ◌++◌, Bool, true, false, not, [], ◌∷◌,
  Bytes, codes, if◌then◌else◌, same_text,
}
use fizzbuzz.GoLib.Decimal.{format_int}
use fizzbuzz.Config.{Config}
use fizzbuzz.Sequence.Params.{Params, FieldError}
use fizzbuzz.Sequence.Validate.{validate}
use fizzbuzz.Server.{
  get_method, head_method, Reply, no_body, body_headers, json_error, Checked, answer, send,
  check_validated, check_parsed, check_request,
}
use fizzbuzz.Server.Parse.{Parsed, refused, got, parse_params}

abbrev pub query_media_type : Bytes
query_media_type = codes "application/x-www-form-urlencoded"

-- `acceptQuery`: a header of every reply of /fizzbuzz.
abbrev pub accept_query : Reply → Reply
accept_query reply = record reply {
  headers = (codes "Accept-Query", query_media_type) ∷ reply.headers;
}

-- What `io.ReadAll` of a `MaxBytesReader` returns.
pub data ReadBody : Type 0 where
  whole : Bytes → ReadBody
  too_big : ReadBody
  unreadable : ReadBody

-- The request behind the media type: an error, or the query for `fizzbuzz`. The method is not HEAD.
abbrev pub check_body : Config → ReadBody → Checked
check_body cfg (whole body) = check_request cfg get_method body
check_body cfg too_big = answer (
    json_error 413 []
      (codes "body: must be at most " ++ format_int cfg.max_header_bytes ++ codes " bytes"))
check_body cfg unreadable = answer (json_error 400 [] (codes "body: unreadable"))

-- `query` up to the budget.
unfoldable pub check_query : (Bytes → Bytes) → Config → Bytes → (ℕ → ReadBody) → Checked
check_query parse_media_type cfg content_type read_body =
    if not (same_text (parse_media_type content_type) query_media_type)
    then answer (json_error 415 [] (codes "Content-Type: must be " ++ query_media_type))
    else check_body cfg (read_body cfg.max_header_bytes)

-- The request of a HEAD: the headers of the body that is not sent.
abbrev pub without_body : Checked → Checked
without_body (answer reply) = answer reply
without_body (send p size) =
    answer (record { status = 200; headers = body_headers size; body = no_body })

-- For every query: a HEAD request has the same errors as a GET request, and where GET sends a body,
-- HEAD replies 200 with its headers.
pub check_request-head :
    (cfg : Config) (raw : Bytes)
    → check_request cfg head_method raw ≡ without_body (check_request cfg get_method raw)
unfolding check_request
check_request-head cfg raw = go (parse_params raw)
  where
    validated :
        (p : Params) (x : Option FieldError)
        → check_validated head_method p x ≡ without_body (check_validated get_method p x)
    validated p (some e) = refl
    validated p none = refl

    go :
        (x : Parsed Params)
        → check_parsed cfg head_method x ≡ without_body (check_parsed cfg get_method x)
    go (refused e) = refl
    go (got p) = validated p (validate p cfg.limits)

-- For every parser of media types and every body: a QUERY request gets a sequence just if its media
-- type is that of forms, its body is read within MaxHeaderBytes, and a GET with the body as its query
-- string gets the same sequence.
pub check_query-send :
    (parse_media_type : Bytes → Bytes) (cfg : Config) (content_type : Bytes)
    (read_body : ℕ → ReadBody) (p : Params) (size : ℕ)
    → (check_query parse_media_type cfg content_type read_body ≡ send p size) ↔ (
        (same_text (parse_media_type content_type) query_media_type ≡ true)
        × ((body : Bytes) × (read_body cfg.max_header_bytes ≡ whole body)
            × (check_request cfg get_method body ≡ send p size)))
unfolding check_query
check_query-send parse_media_type cfg content_type read_body p size =
    go (same_text (parse_media_type content_type) query_media_type) (read_body cfg.max_header_bytes)
      refl
  where
    go :
        (b : Bool) (x : ReadBody)
        → read_body cfg.max_header_bytes ≡ x
        → ((if not b
              then answer (json_error 415 [] (codes "Content-Type: must be " ++ query_media_type))
              else check_body cfg x)
            ≡ send p size)
          ↔ ((b ≡ true)
              × ((body : Bytes) × (x ≡ whole body)
                  × (check_request cfg get_method body ≡ send p size)))
    go false x h = (λ e. absurd (cc e), λ t. absurd (ground (arith, t.0)))
    go true (whole body) h =
        (λ e. (refl, (body, refl, e)), λ (t, (body', same, e)). ap (check_body cfg) same ∙ e)
    go true too_big h = (λ e. absurd (cc e), λ (t, (body', same, e)). absurd (cc same))
    go true unreadable h = (λ e. absurd (cc e), λ (t, (body', same, e)). absurd (cc same))
