-- ===== src/Server/Stream.antt =====
-- server.go: `deadlineWriter`, and the body that a handler sends.
use native.Mathlib.Nat.{mul-le-mul}
use fizzbuzz.Prelude.{
  Option, none, some, codes, List, [], ◌∷◌, if◌then◌else◌, same_text, ℕ, ◌+◌, ◌<◌, ◌≡◌, refl, ap,
  ◌∙◌, false, none, ◌++◌, Bytes, arith, length, two_63, take, ◌*◌, ◌≤◌, ◌^◌,
}
use fizzbuzz.GoLib.Decimal.{format_int}
use fizzbuzz.GoLib.ParseInt.{parsed, parse_int, parse_int-format_int}
use fizzbuzz.GoLib.Writer.{Writer, Written, IsWriter}
use fizzbuzz.Config.{Config}
use fizzbuzz.Sequence.Params.{Params}
use fizzbuzz.Sequence.Reference.{document}
use fizzbuzz.Sequence.Write.{write_json}
use fizzbuzz.Sequence.Write.Delivery.{write_json-document}
use fizzbuzz.Sequence.Validate.Size.{validate-size}
use fizzbuzz.Server.{
  Header, get_method, StatsStore, Stage, finished, started, checked, over, admitted, streaming,
  Shared, send, check_request, advance,
}
use fizzbuzz.Server.Checks.{check_request-send}
use fizzbuzz.Server.Parse.Range.{parse_params-InRange}
use fizzbuzz.Server.Admission.Budget.{IsServed}

-- The clock and the deadline of a connection, with what net/http documents: setting a deadline sends
-- nothing.
pub record Deadline (W : Type 0) : Type 0 where
  pub now : W → ℕ
  pub set_deadline : W → ℕ → W

-- `deadlineWriter.Write`
unfoldable pub deadline_writer : {W : Type 0} → Deadline W → ℕ → Writer W → Writer W
deadline_writer rc d o = record { write = λ w b. o.write (rc.set_deadline w (rc.now w + d)) b }

module _ {W : Type 0} (rc : Deadline W) (d : ℕ) (o : Writer W) (sink : W → Bytes)
    (ok : IsWriter o sink) (quiet : (w : W) (t : ℕ) → sink (rc.set_deadline w t) ≡ sink w) where
  -- The writer keeps the contract of io.Writer.
  pub deadline_writer-IsWriter : IsWriter (deadline_writer rc d o) sink
  unfolding deadline_writer
  deadline_writer-IsWriter = record {
    counted = λ w b. ok.counted (rc.set_deadline w (rc.now w + d)) b;
    delivered = λ w b.
        ok.delivered (rc.set_deadline w (rc.now w + d)) b
        ∙ ap (λ (s : Bytes). s ++ take (o.write (rc.set_deadline w (rc.now w + d)) b).n b)
            (quiet w (rc.now w + d));
    complete = λ w b e. ok.complete (rc.set_deadline w (rc.now w + d)) b e;
  }

-- The body of a reply, with the time to write each chunk.
unfoldable pub stream : {W : Type 0} → Deadline W → Config → Writer W → W → Params → Written W
stream rc cfg o w p = write_json (deadline_writer rc cfg.write_chunk_timeout o) w p

-- The text of a header among those of a reply.
unfoldable pub header_text : Bytes → List Header → Option Bytes
header_text name [] = none
header_text name ((key, text) ∷ headers) =
    let rest = header_text name headers in if same_text key name then some text else rest

abbrev pub reply_headers : Stage → List Header
reply_headers (finished reply) = reply.headers
reply_headers (started method raw) = []
reply_headers (checked p size) = []
reply_headers (over size) = []
reply_headers (admitted p size) = []
reply_headers (streaming p size) = []

header_text-advance :
    {S : Type 0}
    → (store : StatsStore S) (cfg : Config) (p : Params) (size : ℕ) (s : Shared S)
    → header_text
        (codes "Content-Length")
        (reply_headers (advance store cfg (streaming p size) s).0)
      ≡ some (format_int size)
unfolding header_text advance same_text
header_text-advance store cfg p size s = refl

-- For a configuration whose numbers are not negative, documents within 63 bits, a connection that
-- keeps the contract of io.Writer and whose deadlines send nothing, and a GET request that fits in
-- memory and for which the handler sends a sequence: if the body is written without error, the client
-- has received the encoding of the sequence, and the text of the header Content-Length of the reply
-- reads as the length of that encoding.
pub stream-document :
    {W S : Type 0}
    → (rc : Deadline W) (cfg : Config) (o : Writer W) (sink : W → Bytes) → IsWriter o sink
    → ((w : W) (t : ℕ) → sink (rc.set_deadline w t) ≡ sink w)
    → IsServed cfg
    → (raw : Bytes) (p : Params) (size : ℕ) → length raw < two_63
    → check_request cfg get_method raw ≡ send p size
    → (w : W) → (stream rc cfg o w p).failed ≡ false
    → (store : StatsStore S) (s : Shared S)
    → (sink (stream rc cfg o w p).w ≡ sink w ++ document p)
      × ((text : Bytes) × (header_text
              (codes "Content-Length")
              (reply_headers (advance store cfg (streaming p size) s).0)
            ≡ some text)
          × (parse_int text ≡ parsed (length (document p))))
unfolding stream
stream-document rc cfg o sink ok quiet served raw p size fit es w good store s =
    let (ep, ev, exact) = check_request-send cfg raw p size es in
    let (a, whole) =
      validate-size p cfg.limits (parse_params-InRange raw p fit ep) served.limits served.fits ev in
    let small : length (document p) < two_63 =
      omega (arith, a.size, served.limits.max_response_int) in
    let limit : p.limit < 2 ^ 62 = omega (arith, a.limit, served.fits, mul-le-mul a.limit wide) in
    (
      (write_json-document (deadline_writer rc cfg.write_chunk_timeout o) sink
          (deadline_writer-IsWriter rc cfg.write_chunk_timeout o sink ok quiet) w p a.positive limit
          small good).0,
      (
        format_int size,
        header_text-advance store cfg p size s,
        parse_int-format_int size (omega (arith, whole, exact)) ∙ ap parsed (exact ∙ whole),
      ),
    )
  where
    wide : 123 ≤ 12 * cfg.limits.max_str_bytes + 123
    wide = omega arith
