-- ===== src/Channels/Continuing.antt =====
-- How an operation on the tables changes a row.
use rogi_collector.Prelude.{
  ℕ, ◌≤◌, ◌≡◌, refl, sym, ap, subst, ◌∙◌, ◌⊎◌, inl, inr, String, Bool, true, false, none, some,
  List, [], ◌∷◌, arith, nat_eq, if◌then◌else◌, if-holds, if-cases, ok, Bool-cases, find?, exists?,
  find?-update_where, find?-append_some,
}
use rogi_collector.Channels.Model.{
  is_acked, is_handing_over, ChannelRow, ChannelDb, has_key, has_id,
}
use rogi_collector.Channels.Changes.{update_rows, set_worker}
use rogi_collector.Channels.Upserting.{FoundChannel, upsert_row, upsert_rows}
use rogi_collector.Channels.Sound.{key_of}

-- A row keeps its ID, its channel and its first discovery; its session number does not fall; and
-- its handoff is acked only where it was, or was pending with the same worker.
pub record Evolves (r r' : ChannelRow) : Type 0 where
  pub key : key_of r' ≡ key_of r
  pub discovered : r'.discovered_at ≡ r.discovered_at
  pub session : r.current_session_seq ≤ r'.current_session_seq
  pub acks_pending :
      is_acked r'.handoff_status ≡ true
      → ((is_acked r.handoff_status ≡ true) ⊎ (is_handing_over r.handoff_status ≡ true))
        × ((r'.worker_id ≡ r.worker_id) ⊎ (r'.worker_id ≡ none))

-- A row that keeps its handoff and either keeps or loses its worker.
pub kept_handoff :
    (r r' : ChannelRow)
    → key_of r' ≡ key_of r
    → r'.discovered_at ≡ r.discovered_at
    → r.current_session_seq ≤ r'.current_session_seq
    → r'.handoff_status ≡ r.handoff_status
    → ((r'.worker_id ≡ r.worker_id) ⊎ (r'.worker_id ≡ none))
    → Evolves r r'
kept_handoff r r' k d s h w = record {
  key = k;
  discovered = d;
  session = s;
  acks_pending = λ e. (inl (ap is_acked (sym h) ∙ e), w);
}

-- A row whose handoff is not acked afterwards.
pub not_acked :
    (r r' : ChannelRow)
    → key_of r' ≡ key_of r
    → r'.discovered_at ≡ r.discovered_at
    → r.current_session_seq ≤ r'.current_session_seq
    → is_acked r'.handoff_status ≡ false
    → Evolves r r'
not_acked r r' k d s h = record {
  key = k;
  discovered = d;
  session = s;
  acks_pending = λ e. absurd (ground arith);
}

pub unchanged : (r : ChannelRow) → Evolves r r
unchanged r = kept_handoff r r refl refl (omega arith) refl (inl refl)

-- The row of an ID after an operation.
abbrev pub Continues : ℕ → ChannelRow → ChannelDb → Type 0
Continues n r db = (r' : ChannelRow) × (find? (has_id n) db.channels ≡ some r') × Evolves r r'

pub update_rows-Continues :
    (q : ChannelRow → Bool) (f : ChannelRow → ChannelRow) (db : ChannelDb) (n : ℕ) (r : ChannelRow)
    → ((z : ChannelRow) → key_of (f z) ≡ key_of z)
    → (q r ≡ true → Evolves r (f r))
    → find? (has_id n) db.channels ≡ some r
    → Continues n r (update_rows q f db)
update_rows-Continues q f db n r keep step h = (
  (if q r then f r else r),
  find?-update_where (has_id n) q f db.channels r (λ z e. ap (λ k. nat_eq k.0 n) (keep z)) h,
  if-cases (Evolves r) (q r) (f r) r step (λ e. unchanged r),
)

-- The rows after an update that can fail.
pub set_worker-Continues :
    (q : ChannelRow → Bool) (w : String) (f : ChannelRow → ChannelRow) (db db' : ChannelDb) (n : ℕ)
    (r : ChannelRow)
    → ((z : ChannelRow) → key_of (f z) ≡ key_of z)
    → (q r ≡ true → Evolves r (f r))
    → set_worker q w f db ≡ ok db'
    → find? (has_id n) db.channels ≡ some r
    → Continues n r db'
unfolding set_worker
set_worker-Continues q w f db db' n r keep step h there =
    let is : db' ≡ update_rows q f db = ground arith in
    subst (Continues n r) (sym is) (update_rows-Continues q f db n r keep step there)

-- What an upsert does to a row: it keeps the handoff and the worker.
pub record Refreshes (r r' : ChannelRow) : Type 0 where
  pub key : key_of r' ≡ key_of r
  pub discovered : r'.discovered_at ≡ r.discovered_at
  pub session : r.current_session_seq ≤ r'.current_session_seq
  pub handoff : r'.handoff_status ≡ r.handoff_status
  pub worker : r'.worker_id ≡ r.worker_id

module _ (set : FoundChannel → ChannelRow → ChannelRow) (fresh : FoundChannel → ℕ → ChannelRow)
    (refreshes : (ch : FoundChannel) (r : ChannelRow) → Refreshes r (set ch r)) where
  upsert_row-Refreshes :
      (ch : FoundChannel) (db : ChannelDb) (n : ℕ) (r : ChannelRow)
      → find? (has_id n) db.channels ≡ some r
      → (r' : ChannelRow) × (find? (has_id n) (upsert_row set fresh ch db).channels ≡ some r')
        × Refreshes r r'
  unfolding upsert_row
  upsert_row-Refreshes ch db n r h =
      let q = has_key ch.platform ch.channel_id in
      elim (Bool-cases (exists? q db.channels)) [
        | inl old ↦ (
          (if q r then set ch r else r),
          rw old (
              find?-update_where (has_id n) q (set ch) db.channels r
                (λ z e. ap (λ k. nat_eq k.0 n) (refreshes ch z).key) h),
          if-holds (Refreshes r) (q r) (set ch r) r (refreshes ch r) (record {
            key = refl;
            discovered = refl;
            session = omega arith;
            handoff = refl;
            worker = refl;
          }),
        )
        | inr new ↦ (
          r,
          rw new (find?-append_some (has_id n) db.channels _ r h),
          record {
            key = refl;
            discovered = refl;
            session = omega arith;
            handoff = refl;
            worker = refl;
          },
        )
      ]

  upsert_rows-Refreshes :
      (chs : List FoundChannel) (db : ChannelDb) (n : ℕ) (r : ChannelRow)
      → find? (has_id n) db.channels ≡ some r
      → (r' : ChannelRow) × (find? (has_id n) (upsert_rows set fresh chs db).channels ≡ some r')
        × Refreshes r r'
  unfolding upsert_rows
  upsert_rows-Refreshes [] db n r h = (
    r,
    h,
    record { key = refl; discovered = refl; session = omega arith; handoff = refl; worker = refl },
  )
  upsert_rows-Refreshes (ch ∷ chs) db n r h =
      let (s, there, a) = upsert_row-Refreshes ch db n r h in
      let (t, later, b) = upsert_rows-Refreshes chs (upsert_row set fresh ch db) n s there in
      (
        t,
        later,
        record {
          key = b.key ∙ a.key;
          discovered = b.discovered ∙ a.discovered;
          session = omega (arith, a.session, b.session);
          handoff = b.handoff ∙ a.handoff;
          worker = b.worker ∙ a.worker;
        },
      )

  pub upsert_rows-Continues :
      (chs : List FoundChannel) (db : ChannelDb) (n : ℕ) (r : ChannelRow)
      → find? (has_id n) db.channels ≡ some r
      → Continues n r (upsert_rows set fresh chs db)
  upsert_rows-Continues chs db n r h =
      let (r', there, a) = upsert_rows-Refreshes chs db n r h in
      (r', there, kept_handoff r r' a.key a.discovered a.session a.handoff (inl a.worker))
