-- ===== src/Soop/RoundTrip.antt =====
-- Parsing undoes building (worker/internal/connector/soop.go).
use rogi_collector.Prelude.{
  ℕ, ◌+◌, ◌*◌, ◌/◌, ◌%◌, ◌<◌, ◌≡◌, refl, ap, ◌∙◌, inl, inr, false, some, List, [], ◌∷◌, ◌++◌,
  length, length-append, take, take-append-length, ltb, nat_eq, pos, arith, Bool-cases, All, map,
}
use rogi_collector.Soop.Bytes.{Bytes, digits_value, positive, atoi, padded}
use rogi_collector.Soop.Packet.{
  Packet, header_len, field_sep, build, trim_prefix, trim_suffix, split, split_nonempty, fields_of,
  nothing, frame, read_header, scan, parse,
}

abbrev pub digit : ℕ → ℕ
digit n = b'0' + n % 10

abbrev pub four : ℕ → Bytes
four n = digit (n / 10 / 10 / 10) ∷ digit (n / 10 / 10) ∷ digit (n / 10) ∷ digit n ∷ []

abbrev six : ℕ → Bytes
six n = digit (n / 10 / 10 / 10 / 10 / 10) ∷ digit (n / 10 / 10 / 10 / 10) ∷ four n

padded-four : (n : ℕ) → n < 10000 → padded 4 20 n ≡ four n
unfolding padded
padded-four n h = ground arith

padded-six : (n : ℕ) → n < 1000000 → padded 6 20 n ≡ six n
unfolding padded
padded-six n h = ground arith

pub value_step :
    (n m : ℕ) (cs : Bytes) → digits_value m (digit n ∷ cs) ≡ digits_value (m * 10 + n % 10) cs
unfolding digits_value
value_step n m cs = ground arith

atoi-digit : (n : ℕ) (cs : Bytes) → atoi (digit n ∷ cs) ≡ positive (digits_value 0 (digit n ∷ cs))
unfolding atoi
atoi-digit n cs = ground arith

pub value_end : (n m : ℕ) → m ≡ n → digits_value m [] ≡ some n
unfolding digits_value
value_end n m h = ap some h

pub atoi-four : (n : ℕ) → n < 10000 → atoi (four n) ≡ some (pos n)
atoi-four n h =
    atoi-digit _ _
    ∙ ap positive (
        value_step _ _ _
        ∙ value_step _ _ _
        ∙ value_step _ _ _
        ∙ value_step _ _ _
        ∙ value_end n _ (omega arith))

atoi-six : (n : ℕ) → n < 1000000 → atoi (six n) ≡ some (pos n)
atoi-six n h =
    atoi-digit _ _
    ∙ ap positive (
        value_step _ _ _
        ∙ value_step _ _ _
        ∙ value_step _ _ _
        ∙ value_step _ _ _
        ∙ value_step _ _ _
        ∙ value_step _ _ _
        ∙ value_end n _ (omega arith))

pub atoi_zeros : atoi (b'0' ∷ b'0' ∷ []) ≡ some (pos 0)
unfolding atoi digits_value
atoi_zeros = refl

-- The bytes of a packet with a command of at most four digits and a length of at most six.
abbrev header : ℕ → ℕ → Bytes → Bytes
header cmd n body = 9 ∷ (four cmd ++ (six n ++ (b'0' ∷ b'0' ∷ body)))

abbrev built : ℕ → Bytes → Bytes
built cmd body = 27 ∷ header cmd (length body) body

build-built :
    (cmd : ℕ) (body : Bytes) → cmd < 10000 → length body < 1000000 → build cmd body ≡ built cmd body
unfolding build
build-built cmd body small short = rw (padded-four cmd small, padded-six (length body) short) refl

read-built :
    (cmd : ℕ) (body rest : Bytes)
    → cmd < 10000
    → length body < 1000000
    → read_header (built cmd body ++ rest) ≡ frame (pos cmd) (pos 0) (length body)
unfolding read_header
read-built cmd body rest small short =
    let long : ltb (length (built cmd body ++ rest)) header_len ≡ false = ground arith in
    let fits : ltb (length (built cmd body ++ rest)) (header_len + length body) ≡ false =
      ground (arith, length-append body rest) in
    rw (long, atoi-four cmd small, atoi-six (length body) short, atoi_zeros, fits) refl

scan-skip : (xs rest : Bytes) → scan (length xs) (xs ++ rest) ≡ scan 0 rest
unfolding scan
scan-skip [] rest = refl
scan-skip (x ∷ xs) rest = scan-skip xs rest

scan-built :
    (cmd : ℕ) (body rest : Bytes) (ps : List Packet)
    → cmd < 10000
    → length body < 1000000
    → scan 0 rest ≡ some ps
    → scan 0 (built cmd body ++ rest)
      ≡ some (
          (record { cmd = pos cmd; ret = pos 0; fields = fields_of body; raw = built cmd body })
          ∷ ps)
unfolding scan
scan-built cmd body rest ps small short h =
    let all : 13 + length body ≡ length (header cmd (length body) body) = omega arith in
    let onward : scan (13 + length body) (header cmd (length body) body ++ rest) ≡ some ps =
      ap (λ k. scan k (header cmd (length body) body ++ rest)) all
      ∙ scan-skip (header cmd (length body) body) rest
      ∙ h in
    let size : header_len + length body ≡ length (built cmd body) = omega arith in
    let whole : take (header_len + length body) (built cmd body ++ rest) ≡ built cmd body =
      ap (λ k. take k (built cmd body ++ rest)) size ∙ take-append-length (built cmd body) rest in
    rw (scan, read-built cmd body rest small short, onward)
      (ground (arith, take-append-length body rest, whole))

-- A body whose fields stand between separators, as Connect and the login handler write them.
unfoldable pub join : List Bytes → Bytes
join [] = []
join (f ∷ []) = f
join (f ∷ g ∷ fs) = f ++ (field_sep ∷ join (g ∷ fs))

abbrev pub enclose : List Bytes → Bytes
enclose fs = field_sep ∷ (join fs ++ (field_sep ∷ []))

-- No byte of the text is this one.
abbrev pub Lacks : ℕ → Bytes → Type 0
Lacks s cs = All (λ c. nat_eq c s ≡ false) cs

trim_suffix-snoc : (cs : Bytes) → trim_suffix (cs ++ (field_sep ∷ [])) ≡ cs
unfolding trim_suffix
trim_suffix-snoc [] = refl
trim_suffix-snoc (c ∷ []) = refl
trim_suffix-snoc (c ∷ d ∷ cs) = ap (◌∷◌ c) (trim_suffix-snoc (d ∷ cs))

split_field : (f : Bytes) → Lacks field_sep f → split f ≡ f ∷ []
unfolding split
split_field [] h = refl
split_field (c ∷ cs) h = rw (h.0, split_field cs h.1) refl

split-append :
    (f rest : Bytes) → Lacks field_sep f → split (f ++ (field_sep ∷ rest)) ≡ f ∷ split rest
unfolding split
split-append [] rest h = refl
split-append (c ∷ cs) rest h = rw (h.0, split-append cs rest h.1) refl

split-join :
    (f : Bytes) (fs : List Bytes) → All (Lacks field_sep) (f ∷ fs) → split (join (f ∷ fs)) ≡ f ∷ fs
unfolding join
split-join f [] h = split_field f h.0
split-join f (g ∷ fs) h = split-append f (join (g ∷ fs)) h.0 ∙ ap (◌∷◌ f) (split-join g fs h.1)

split_nonempty_lem : (cs : Bytes) → 0 < length cs → split_nonempty cs ≡ split cs
split_nonempty_lem [] h = ground (arith, h)
split_nonempty_lem (c ∷ cs) h = refl

-- The fields that stand between separators are read back as they are, the empty ones among them
-- too, if none holds a separator and they are not a single empty field.
pub fields_of-enclose :
    (f : Bytes) (fs : List Bytes)
    → All (Lacks field_sep) (f ∷ fs)
    → 0 < length (join (f ∷ fs))
    → fields_of (enclose (f ∷ fs)) ≡ f ∷ fs
unfolding fields_of trim_prefix
fields_of-enclose f fs clean some_byte =
    ap split_nonempty (trim_suffix-snoc (join (f ∷ fs)))
    ∙ split_nonempty_lem (join (f ∷ fs)) some_byte
    ∙ split-join f fs clean

-- A packet to send, with bytes before it that begin no packet.
pub record Sent : Type 0 where
  pub noise : Bytes
  pub cmd : ℕ
  pub body : Bytes

abbrev pub IsSendable : Sent → Type 0
IsSendable m = Lacks 27 m.noise × (m.cmd < 10000) × (length m.body < 1000000)

unfoldable pub stream : List Sent → Bytes
stream [] = []
stream (m ∷ ms) = m.noise ++ (build m.cmd m.body ++ stream ms)

unfoldable pub received : Sent → Packet
received m = record {
  cmd = pos m.cmd;
  ret = pos 0;
  fields = fields_of m.body;
  raw = build m.cmd m.body;
}

read_header-noise : (c : ℕ) (cs : Bytes) → nat_eq c 27 ≡ false → read_header (c ∷ cs) ≡ nothing
unfolding read_header
read_header-noise c [] h = refl
read_header-noise c (d ∷ ds) h = elim (Bool-cases (ltb (length (c ∷ d ∷ ds)) header_len)) [
  | inl short ↦ rw short refl
  | inr long ↦ rw (long, h) refl
]

scan-noise : (noise rest : Bytes) → Lacks 27 noise → scan 0 (noise ++ rest) ≡ scan 0 rest
unfolding scan
scan-noise [] rest h = refl
scan-noise (c ∷ cs) rest h =
    rw (scan, read_header-noise c (cs ++ rest) h.0) (scan-noise cs rest h.1)

-- The parser reads a stream of built packets back: exactly those packets in their order, each with
-- its command, its fields and its bytes, whatever other bytes than 0x1B stand before each. The
-- commands have at most four digits and the bodies fewer than a million bytes.
pub parse-stream : (ms : List Sent) → All IsSendable ms → parse (stream ms) ≡ some (map received ms)
unfolding parse stream received
parse-stream [] h = unfold scan in refl
parse-stream (m ∷ ms) h =
    let (quiet, small, short) = h.0 in
    scan-noise m.noise (build m.cmd m.body ++ stream ms) quiet
    ∙ rw (build-built m.cmd m.body small short)
        (scan-built m.cmd m.body (stream ms) (map received ms) small short (parse-stream ms h.1))
