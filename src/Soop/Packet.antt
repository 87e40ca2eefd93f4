-- ===== src/Soop/Packet.antt =====
-- The packet format (buildSoopPacket and parseSoopPackets of worker/internal/connector/soop.go).
use rogi_collector.Prelude.{
  ℕ, zero, suc, ◌+◌, ◌||◌, not, Option, none, some, List, [], ◌∷◌, ◌++◌, length, take, drop, ltb,
  nat_eq, if◌then◌else◌, ℤ, pos, negsuc,
}
use rogi_collector.Soop.Bytes.{Bytes, atoi, padded}

pub record Packet : Type 0 where
  pub cmd : ℤ
  pub ret : ℤ
  pub fields : List Bytes
  pub raw : Bytes

-- soopHeaderLen
abbrev pub header_len : ℕ
header_len = 14

-- soopFieldSep
abbrev pub field_sep : ℕ
field_sep = 12

-- buildSoopPacket; a body has at most 2^63 bytes, fewer than 20 digits.
unfoldable pub build : ℕ → Bytes → Bytes
build cmd body = 27 ∷ 9 ∷ (padded 4 20 cmd ++ (padded 6 20 (length body) ++ (b'0' ∷ b'0' ∷ body)))

-- strings.TrimPrefix and strings.TrimSuffix with the separator
unfoldable pub trim_prefix : Bytes → Bytes
trim_prefix [] = []
trim_prefix (c ∷ cs) = if nat_eq c field_sep then cs else c ∷ cs

unfoldable pub trim_suffix : Bytes → Bytes
trim_suffix [] = []
trim_suffix (c ∷ []) = if nat_eq c field_sep then [] else c ∷ []
trim_suffix (c ∷ d ∷ cs) = c ∷ trim_suffix (d ∷ cs)

abbrev pub onto_head : ℕ → List Bytes → List Bytes
onto_head c [] = (c ∷ []) ∷ []
onto_head c (f ∷ fs) = (c ∷ f) ∷ fs

-- strings.Split with the separator
unfoldable pub split : Bytes → List Bytes
split [] = [] ∷ []
split (c ∷ cs) = let rest = split cs in if nat_eq c field_sep then [] ∷ rest else onto_head c rest

abbrev pub split_nonempty : Bytes → List Bytes
split_nonempty [] = []
split_nonempty (c ∷ cs) = split (c ∷ cs)

unfoldable pub fields_of : Bytes → List Bytes
fields_of body = split_nonempty (trim_suffix (trim_prefix body))

-- What the parser finds at a position: no packet, a packet with a body of this length, or a
-- negative length, at which the slice of the body panics.
pub data Found : Type 0 where
  nothing panics : Found
  frame : ℤ → ℤ → ℕ → Found

abbrev pub found : Bytes → Option ℤ → Option ℤ → Option ℤ → Found
found raw (some cmd) (some (pos n)) (some ret) =
    if ltb (length raw) (header_len + n) then nothing else frame cmd ret n
found raw (some cmd) (some (negsuc n)) (some ret) = panics
found raw _ _ _ = nothing

-- The header at the start of `raw`.
unfoldable pub read_header : Bytes → Found
read_header (a ∷ b ∷ raw) =
    if ltb (length (a ∷ b ∷ raw)) header_len
    then nothing
    else if not (nat_eq a 27) || not (nat_eq b 9)
    then nothing
    else found (a ∷ b ∷ raw) (atoi (take 4 raw)) (atoi (take 6 (drop 4 raw)))
        (atoi (take 2 (drop 10 raw)))
read_header _ = nothing

abbrev pub packet_of : Bytes → ℤ → ℤ → ℕ → Packet
packet_of raw cmd ret n = record {
  cmd = cmd;
  ret = ret;
  fields = fields_of (take n (drop header_len raw));
  raw = take (header_len + n) raw;
}

-- The loop of parseSoopPackets; `skip` bytes belong to the packet before. `none` is a panic.
unfoldable pub scan : ℕ → Bytes → Option (List Packet)
scan k [] = some []
scan (suc k) (c ∷ cs) = scan k cs
scan zero (c ∷ cs) = elim (read_header (c ∷ cs)) [
  | nothing ↦ scan zero cs
  | panics ↦ none
  | frame cmd ret n ↦ elim (scan (13 + n) cs) [
    | none ↦ none
    | some ps ↦ some (packet_of (c ∷ cs) cmd ret n ∷ ps)
  ]
]

-- parseSoopPackets
unfoldable pub parse : Bytes → Option (List Packet)
parse raw = scan 0 raw
