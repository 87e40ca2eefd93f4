-- ===== src/Soop/Malformed.antt =====
-- A header with a signed length (parseSoopPackets of worker/internal/connector/soop.go).
use rogi_collector.Prelude.{
  ℕ, suc, ◌+◌, ◌/◌, ◌<◌, ◌≡◌, refl, ap, ◌∙◌, false, none, some, ◌∷◌, ◌++◌, length, ltb, negsuc,
  arith,
}
use rogi_collector.Soop.Bytes.{Bytes, nonempty_digits, negated, atoi}
use rogi_collector.Soop.Packet.{header_len, read_header, scan, parse}
use rogi_collector.Soop.RoundTrip.{digit, four, value_step, value_end, atoi-four, atoi_zeros}

abbrev pub five : ℕ → Bytes
five n = digit (n / 10 / 10 / 10 / 10) ∷ four n

atoi_minus : (cs : Bytes) → atoi (b'-' ∷ cs) ≡ negated (nonempty_digits cs)
unfolding atoi
atoi_minus cs = refl

atoi-five : (n : ℕ) → n + 1 < 100000 → atoi (b'-' ∷ five (n + 1)) ≡ some (negsuc n)
atoi-five n h =
    atoi_minus (five (n + 1))
    ∙ ap negated (
        value_step _ _ _
        ∙ value_step _ _ _
        ∙ value_step _ _ _
        ∙ value_step _ _ _
        ∙ value_step _ _ _
        ∙ value_end (suc n) _ (omega arith))

-- A packet whose header gives its length as a minus sign and five digits, not all zero, makes the
-- parser panic (it slices to an end before the start), whatever follows, instead of being skipped
-- as malformed. The command has at most four digits.
pub parse_negative_length :
    (cmd n : ℕ) (rest : Bytes)
    → cmd < 10000
    → n + 1 < 100000
    → parse (27 ∷ 9 ∷ (four cmd ++ (b'-' ∷ five (n + 1) ++ (b'0' ∷ b'0' ∷ rest)))) ≡ none
unfolding parse scan read_header
parse_negative_length cmd n rest small short =
    let raw : Bytes = 27 ∷ 9 ∷ (four cmd ++ (b'-' ∷ five (n + 1) ++ (b'0' ∷ b'0' ∷ rest))) in
    let long : ltb (length raw) header_len ≡ false = ground arith in
    rw (scan, read_header, long, atoi-four cmd small, atoi-five n short, atoi_zeros) refl
