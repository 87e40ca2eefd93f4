-- ===== src/Channels/Deduping.antt =====
-- The loop that drops duplicates in UpsertLiveChannels (shared/store/postgres.go): the last channel
-- of a key stays.
use rogi_collector.Prelude.{
  ◌≡◌, refl, ◌∙◌, inl, inr, String, Bool, true, false, ◌&&◌, Option, none, some, List, [], ◌∷◌,
  ◌++◌, arith, ◌==◌, eq_iff, if◌then◌else◌, Bool-cases, if-holds, exists?, update_where, All,
  is_some,
}
use rogi_collector.Channels.Upserting.{FoundChannel, seen_key, is_seen, dedupe}
use rogi_collector.Channels.Laws.{update_where-none, All-update_where, All-snoc}
use rogi_collector.Channels.Keys.{has_colon, seen_key-apart}

abbrev pub has_found : String → String → FoundChannel → Bool
has_found p c ch = (ch.platform == p) && (ch.channel_id == c)

-- The last channel that was found under a platform and an ID.
unfoldable pub last_found : String → String → List FoundChannel → Option FoundChannel
last_found p c [] = none
last_found p c (ch ∷ chs) =
    let later = last_found p c chs in
    if is_some later then later else if has_found p c ch then some ch else none

abbrev pub IsPlain : FoundChannel → Type 0
IsPlain ch = has_colon ch.platform ≡ false

module _ (p c : String) where
  has_found-seen :
      (a b : FoundChannel)
      → IsPlain a
      → IsPlain b
      → is_seen a b ≡ true
      → has_found p c b ≡ has_found p c a
  has_found-seen a b ha hb e =
      let (same_p, same_c) =
        seen_key-apart b.platform a.platform b.channel_id a.channel_id hb ha
          ((eq_iff (seen_key b) (seen_key a)).0 e) in
      rw (same_p, same_c) refl

  last_found-snoc :
      (ch : FoundChannel) (acc : List FoundChannel)
      → last_found p c (acc ++ ch ∷ []) ≡ (if has_found p c ch then some ch else last_found p c acc)
  unfolding last_found
  last_found-snoc ch [] = ground arith
  last_found-snoc ch (x ∷ acc) = ground (arith, last_found-snoc ch acc)

  found-seen :
      (a b : FoundChannel) → has_found p c a ≡ true → has_found p c b ≡ true → is_seen a b ≡ true
  found-seen a b ha hb =
      let a_p : a.platform ≡ p = (eq_iff a.platform p).0 (ground arith) in
      let a_c : a.channel_id ≡ c = (eq_iff a.channel_id c).0 (ground arith) in
      let b_p : b.platform ≡ p = (eq_iff b.platform p).0 (ground arith) in
      let b_c : b.channel_id ≡ c = (eq_iff b.channel_id c).0 (ground arith) in
      (eq_iff (seen_key b) (seen_key a)).1 (rw (a_p, a_c, b_p, b_c) refl)

  last_found-unseen :
      (ch : FoundChannel) (acc : List FoundChannel)
      → has_found p c ch ≡ true
      → exists? (is_seen ch) acc ≡ false
      → last_found p c acc ≡ none
  unfolding last_found exists?
  last_found-unseen ch [] h e = refl
  last_found-unseen ch (x ∷ acc) h e = elim (Bool-cases (has_found p c x)) [
    | inl k ↦ let seen = found-seen ch x h k in absurd (ground arith)
    | inr k ↦ let rest = last_found-unseen ch acc h (ground arith) in rw (rest, k) refl
  ]

  replace_same :
      (ch : FoundChannel) (acc : List FoundChannel)
      → has_found p c ch ≡ true
      → exists? (is_seen ch) acc ≡ true
      → last_found p c (update_where (is_seen ch) (λ o. ch) acc) ≡ some ch
  unfolding last_found exists? update_where
  replace_same ch [] h e = cc
  replace_same ch (x ∷ acc) h e = elim (Bool-cases (exists? (is_seen ch) acc)) [
    | inl later ↦ rw (replace_same ch acc h later) refl
    | inr last ↦
        let here : is_seen ch x ≡ true = ground arith in
        rw
          (
            update_where-none (is_seen ch) (λ o. ch) acc last,
            last_found-unseen ch acc h last,
            here,
            h,
          )
          refl
  ]

  replace_other :
      (ch : FoundChannel) (acc : List FoundChannel)
      → IsPlain ch
      → All IsPlain acc
      → has_found p c ch ≡ false
      → last_found p c (update_where (is_seen ch) (λ o. ch) acc) ≡ last_found p c acc
  unfolding last_found update_where
  replace_other ch [] h hs e = refl
  replace_other ch (x ∷ acc) h hs e =
      let rest = replace_other ch acc h hs.1 e in
      elim (Bool-cases (is_seen ch x)) [
        | inl seen ↦
            let same = has_found-seen ch x h hs.0 seen in rw (rest, seen, e) (rw (same ∙ e) refl)
        | inr other ↦ rw (rest, other) refl
      ]

  -- One round of the loop.
  dedupe-one :
      (ch : FoundChannel) (acc : List FoundChannel)
      → IsPlain ch
      → All IsPlain acc
      → last_found p c (
          if exists? (is_seen ch) acc
          then update_where (is_seen ch) (λ o. ch) acc
          else acc ++ ch ∷ [])
        ≡ (if has_found p c ch then some ch else last_found p c acc)
  dedupe-one ch acc h hs = elim (Bool-cases (exists? (is_seen ch) acc)) [
    | inr new ↦ rw new (last_found-snoc ch acc)
    | inl old ↦ elim (Bool-cases (has_found p c ch)) [
      | inl this ↦ rw (old, this) (replace_same ch acc this old)
      | inr other ↦ rw (old, other) (replace_other ch acc h hs other)
    ]
  ]

  pub dedupe-last :
      (chs acc : List FoundChannel)
      → All IsPlain acc
      → All IsPlain chs
      → last_found p c (dedupe acc chs)
        ≡ (if is_some (last_found p c chs) then last_found p c chs else last_found p c acc)
  unfolding dedupe last_found
  dedupe-last [] acc hs ks = refl
  dedupe-last (ch ∷ chs) acc hs ks =
      let plain : All IsPlain (
          if exists? (is_seen ch) acc
          then update_where (is_seen ch) (λ o. ch) acc
          else acc ++ ch ∷ []) =
        if-holds (All IsPlain) (exists? (is_seen ch) acc) _ _
          (All-update_where IsPlain (is_seen ch) (λ o. ch) acc (λ x e h. ks.0) hs)
          (All-snoc IsPlain acc ch hs ks.0) in
      dedupe-last chs _ plain ks.1
      ∙ rw (dedupe-one ch acc ks.0 hs)
          (merged (last_found p c chs) (has_found p c ch) ch (last_found p c acc))
    where
      merged :
          (x : Option FoundChannel) (b : Bool) (ch : FoundChannel) (y : Option FoundChannel)
          → (if is_some x then x else if b then some ch else y) ≡ (
              let later = if is_some x then x else if b then some ch else none in
              if is_some later then later else y)
      merged none true ch y = refl
      merged none false ch y = refl
      merged (some x) b ch y = refl
