-- ===== src/Server/Checks.antt =====
-- server.go: `fizzbuzz` up to the budget, from what it sends.
use fizzbuzz.Prelude.{ℕ, ◌≡◌, refl, sym, ap, ◌∙◌, Option, none, some, Bytes}
use fizzbuzz.Config.{Config}
use fizzbuzz.Sequence.Params.{Params, FieldError}
use fizzbuzz.Sequence.Size.{json_size}
use fizzbuzz.Sequence.Validate.{validate}
use fizzbuzz.Server.{
  get_method, Checked, answer, send, check_validated, check_parsed, check_request,
}
use fizzbuzz.Server.Parse.{Parsed, refused, got, parse_params}

sent_params : Params → Checked → Params
sent_params d (send p size) = p
sent_params d (answer reply) = d

sent_size : Checked → ℕ
sent_size (send p size) = size
sent_size (answer reply) = 0

-- A sequence is sent for parameters that are read and accepted, with their size.
pub check_request-send :
    (cfg : Config) (raw : Bytes) (p : Params) (size : ℕ)
    → check_request cfg get_method raw ≡ send p size
    → (parse_params raw ≡ got p) × (validate p cfg.limits ≡ none) × (size ≡ json_size p)
unfolding check_request sent_params sent_size
check_request-send cfg raw p size e = go (parse_params raw) refl e
  where
    validated :
        (q : Params) (x : Option FieldError)
        → parse_params raw ≡ got q
        → validate q cfg.limits ≡ x
        → check_validated get_method q x ≡ send p size
        → (parse_params raw ≡ got p) × (validate p cfg.limits ≡ none) × (size ≡ json_size p)
    validated q (some y) ep ev e = absurd (cc e)
    validated q none ep ev e =
        let same : q ≡ p = ap (sent_params q) e in
        (
          ep ∙ ap got same,
          ap (λ x. validate x cfg.limits) (sym same) ∙ ev,
          sym (ap sent_size e) ∙ ap json_size same,
        )

    go :
        (x : Parsed Params)
        → parse_params raw ≡ x
        → check_parsed cfg get_method x ≡ send p size
        → (parse_params raw ≡ got p) × (validate p cfg.limits ≡ none) × (size ≡ json_size p)
    go (refused y) ep e = absurd (cc e)
    go (got q) ep e = validated q (validate q cfg.limits) ep refl e
