-- ===== src/View/Agreement/Dispatch.antt =====
-- The dispatch on the type code: `read_payload` and `payload_span` test the codes in different orders.
use struple.Prelude.{
  ℕ, ◌≡◌, ap, ◌∙◌, arith, List, take, Option, some, true, false, ◌==◌, ◌||◌, Bool-cases, inl, inr,
}
use struple.Prelude.Int.{pos}
use struple.Codes.{
  nil_code, undef_code, bool_false, bool_true, int_neg_big, int_zero, int_pos_big, float32, float64,
  decimal_code, timestamp_code, uuid_code, string_code, bytes_code, array_code, map_code, set_code,
  is_fixed_neg, is_fixed_pos,
}
use struple.Framing.{unescape}
use struple.Reader.{nil, undef, bool, int, Reader, ◌>>=◌, lift, take_bytes, advance}
use struple.Reader.Next.{
  read_f32, read_f64, read_timestamp, read_framed, take_framed, framed_kind, read_payload,
}
use struple.View.Span.{more, framed_span, payload_span}
use struple.View.Agreement.Rules.{MovesBy, lift-MovesBy, take_then, then_lift, respan}
use struple.View.Agreement.Scans.{take_framed-MovesBy}
use struple.View.Agreement.Payloads.{read_fixed_int-MovesBy, read_big_int-MovesBy}
use struple.View.Agreement.Decimals.{read_decimal-MovesBy}

-- The read behind a type code moves by the span for that code.
Agrees : ℕ → Type 0
Agrees t = (r : Reader) → MovesBy r (payload_span t r.rest) (read_payload t r)

constant {ℓ} : {A : Type ℓ} (a : A) (r : Reader) → MovesBy r (some 0) (lift (some a) r)
constant a r = lift-MovesBy (some a) r

taken {ℓ} :
    {A : Type ℓ} (n : ℕ) (g : List ℕ → Option A) (r : Reader)
    → MovesBy r (some n) ((take_bytes n >>= λ p. lift (g p)) r)
taken n g r =
    respan r (more n (some 0)) (some n) ((take_bytes n >>= λ p. lift (g p)) r)
      (λ k e fits. ap some (omega arith) ∙ e)
      (take_then n (λ p. lift (g p)) r (some 0)
        (λ fits. lift-MovesBy (g (take n r.rest)) (advance n r)))

framed : (t : ℕ) (r : Reader) → MovesBy r (framed_span r.rest) (read_framed t r)
unfolding read_framed
framed t r =
    then_lift (λ content. some (framed_kind t (unescape content))) r (framed_span r.rest)
      (take_framed r) (take_framed-MovesBy r)

-- One code: what is shown for it need not be shown for the others.
named : (t c : ℕ) → Agrees c → ((t == c) ≡ false → Agrees t) → Agrees t
named t c h other = elim (Bool-cases (t == c)) [
  | inl e ↦ let same : t ≡ c = ground arith in rw same h
  | inr e ↦ other e
]

nil_code-Agrees : Agrees nil_code
unfolding Agrees payload_span read_payload
nil_code-Agrees r = constant nil r

undef_code-Agrees : Agrees undef_code
unfolding Agrees payload_span read_payload
undef_code-Agrees r = constant undef r

bool_false-Agrees : Agrees bool_false
unfolding Agrees payload_span read_payload
bool_false-Agrees r = constant (bool false) r

bool_true-Agrees : Agrees bool_true
unfolding Agrees payload_span read_payload
bool_true-Agrees r = constant (bool true) r

int_zero-Agrees : Agrees int_zero
unfolding Agrees payload_span read_payload
int_zero-Agrees r = constant (int (pos 0)) r

int_neg_big-Agrees : Agrees int_neg_big
unfolding Agrees payload_span read_payload
int_neg_big-Agrees r = read_big_int-MovesBy true r

int_pos_big-Agrees : Agrees int_pos_big
unfolding Agrees payload_span read_payload
int_pos_big-Agrees r = read_big_int-MovesBy false r

float32-Agrees : Agrees float32
unfolding Agrees payload_span read_payload read_f32
float32-Agrees r = taken 4 _ r

float64-Agrees : Agrees float64
unfolding Agrees payload_span read_payload read_f64
float64-Agrees r = taken 8 _ r

timestamp_code-Agrees : Agrees timestamp_code
unfolding Agrees payload_span read_payload read_timestamp
timestamp_code-Agrees r = taken 8 _ r

uuid_code-Agrees : Agrees uuid_code
unfolding Agrees payload_span read_payload
uuid_code-Agrees r = taken 16 _ r

decimal_code-Agrees : Agrees decimal_code
unfolding Agrees payload_span read_payload
decimal_code-Agrees r = read_decimal-MovesBy r

string_code-Agrees : Agrees string_code
unfolding Agrees payload_span read_payload
string_code-Agrees r = framed string_code r

bytes_code-Agrees : Agrees bytes_code
unfolding Agrees payload_span read_payload
bytes_code-Agrees r = framed bytes_code r

array_code-Agrees : Agrees array_code
unfolding Agrees payload_span read_payload
array_code-Agrees r = framed array_code r

map_code-Agrees : Agrees map_code
unfolding Agrees payload_span read_payload
map_code-Agrees r = framed map_code r

set_code-Agrees : Agrees set_code
unfolding Agrees payload_span read_payload
set_code-Agrees r = framed set_code r

-- None of the codes above: a fixed-width integer, or no code.
other-Agrees :
    (t : ℕ)
    → (t == nil_code) ≡ false
    → (t == undef_code) ≡ false
    → (t == bool_false) ≡ false
    → (t == bool_true) ≡ false
    → (t == int_zero) ≡ false
    → (t == int_neg_big) ≡ false
    → (t == int_pos_big) ≡ false
    → (t == float32) ≡ false
    → (t == float64) ≡ false
    → (t == timestamp_code) ≡ false
    → (t == uuid_code) ≡ false
    → (t == decimal_code) ≡ false
    → (t == string_code) ≡ false
    → (t == bytes_code) ≡ false
    → (t == array_code) ≡ false
    → (t == map_code) ≡ false
    → (t == set_code) ≡ false
    → Agrees t
unfolding Agrees payload_span read_payload
other-Agrees t h0 h1 h2 h3 h4 h5 h6 h7 h8 h9 h10 h11 h12 h13 h14 h15 h16 r =
    elim (Bool-cases (is_fixed_neg t || is_fixed_pos t)) [
      | inl fixed ↦
          rw (h0, h1, h2, h3, h4, h5, h6, h7, h8, h9, h10, h11, h12, h13, h14, h15, h16, fixed)
            (read_fixed_int-MovesBy t r)
      | inr unknown ↦
          rw (h0, h1, h2, h3, h4, h5, h6, h7, h8, h9, h10, h11, h12, h13, h14, h15, h16, unknown) tt
    ]

pub read_payload-MovesBy :
    (t : ℕ) (r : Reader) → MovesBy r (payload_span t r.rest) (read_payload t r)
unfolding Agrees
read_payload-MovesBy t r = agrees r
  where
    agrees : Agrees t
    agrees = named t nil_code nil_code-Agrees (λ h0. named t undef_code undef_code-Agrees (λ h1.
        named t bool_false bool_false-Agrees (λ h2. named t bool_true bool_true-Agrees (λ h3.
          named t int_zero int_zero-Agrees (λ h4. named t int_neg_big int_neg_big-Agrees (λ h5.
            named t int_pos_big int_pos_big-Agrees (λ h6. named t float32 float32-Agrees (λ h7.
              named t float64 float64-Agrees (λ h8.
                named t timestamp_code timestamp_code-Agrees (λ h9.
                  named t uuid_code uuid_code-Agrees (λ h10.
                    named t decimal_code decimal_code-Agrees (λ h11.
                      named t string_code string_code-Agrees (λ h12.
                        named t bytes_code bytes_code-Agrees (λ h13.
                          named t array_code array_code-Agrees (λ h14.
                            named t map_code map_code-Agrees (λ h15.
                              named t set_code set_code-Agrees (λ h16.
                                other-Agrees t h0 h1 h2 h3 h4 h5 h6 h7 h8 h9 h10 h11 h12 h13 h14 h15
                                  h16)))))))))))))))))
