-- ===== src/Manager/Orphans.antt =====
-- A connector's error that is handled late (handleErrors of worker/internal/manager.go).
use rogi_collector.Prelude.{
  ℕ, ◌≡◌, ◌∙◌, refl, ap, String, true, false, ◌&&◌, some, List, [], ◌∷◌, leb, ltb, arith, select,
  exists?, eq_iff,
}
use rogi_collector.Manager.Model.{
  Attempt, same, Manager, begun, begin_connect, register, end_connect, disconnect, tear_down,
  remove_entry,
}

abbrev pub managing : ℕ → List Attempt → List String → ℕ → List Attempt → Manager
managing max_conn conns connecting dialing live = record {
  max_conn = max_conn;
  conns = conns;
  connecting = connecting;
  dialing = dialing;
  live = live;
}

begin_first :
    (max_conn : ℕ) (key : String)
    → begin_connect key (managing max_conn [] [] 0 [])
      ≡ (begun, managing max_conn [] (key ∷ []) 1 [])
unfolding begin_connect exists?
begin_first max_conn key = rw (room) refl
  where
    room : (ltb 0 max_conn && leb max_conn 0) ≡ false
    room = ground arith

register_first :
    (max_conn : ℕ) (a : Attempt)
    → (register a (managing max_conn [] (a.key ∷ []) 1 [])).1
      ≡ managing max_conn (a ∷ []) (a.key ∷ []) 1 (a ∷ [])
unfolding register exists?
register_first max_conn a = refl

end_only :
    (max_conn : ℕ) (key : String) (conns live : List Attempt)
    → end_connect key (managing max_conn conns (key ∷ []) 1 live)
      ≡ managing max_conn conns [] 0 live
unfolding end_connect select
end_only max_conn key conns live = rw ((eq_iff key key).1 refl) refl

tear_down_only :
    (max_conn : ℕ) (a : Attempt)
    → tear_down a (managing max_conn (a ∷ []) [] 0 (a ∷ [])) ≡ managing max_conn (a ∷ []) [] 0 []
unfolding tear_down select
tear_down_only max_conn a = rw (itself) refl
  where
    itself : same a a ≡ true
    itself = ground arith

disconnect_only :
    (max_conn : ℕ) (a : Attempt)
    → disconnect a.key (managing max_conn (a ∷ []) [] 0 []) ≡ some (managing max_conn [] [] 0 [])
unfolding disconnect select exists?
disconnect_only max_conn a = rw ((eq_iff a.key a.key).1 refl) refl

remove_other :
    (max_conn old new : ℕ) (key : String)
    → remove_entry
        (record { number = old; key = key })
        (managing max_conn
          (record { number = new; key = key } ∷ [])
          []
          0
          (record { number = new; key = key } ∷ []))
      ≡ managing max_conn [] [] 0 (record { number = new; key = key } ∷ [])
unfolding remove_entry select
remove_other max_conn old new key = rw ((eq_iff key key).1 refl) refl

-- The error of a connector is handled in two parts, and in between the channel is disconnected and
-- connected again: from a manager whose one connection is the old attempt, the error tears the old
-- connector down, Disconnect drops the channel's entry, a second Connect of the channel goes
-- through its three parts, and then the rest of the old error's handling removes an entry. It is
-- the new connection's: the new connector is still connected, and the manager has no entry for it.
pub remove_entry-orphans :
    (max_conn old new : ℕ) (key : String)
    → (let a : Attempt = record { number = old; key = key } in
        let b : Attempt = record { number = new; key = key } in
        (m2 m3 : Manager) × (disconnect key (tear_down a (managing max_conn (a ∷ []) [] 0 (a ∷ [])))
          ≡ some m2)
        × (begin_connect key m2 ≡ (begun, m3))
        × (let m4 = end_connect key (register b m3).1 in
            (m4.conns ≡ b ∷ [])
            × (m4.live ≡ b ∷ [])
            × ((remove_entry a m4).conns ≡ [])
            × ((remove_entry a m4).live ≡ b ∷ [])))
remove_entry-orphans max_conn old new key =
    let a : Attempt = record { number = old; key = key } in
    let b : Attempt = record { number = new; key = key } in
    let again : end_connect key (register b (managing max_conn [] (key ∷ []) 1 [])).1
        ≡ managing max_conn (b ∷ []) [] 0 (b ∷ []) =
      ap (end_connect key) (register_first max_conn b) ∙ end_only max_conn key (b ∷ []) (b ∷ []) in
    let gone = ap (remove_entry a) again ∙ remove_other max_conn old new key in
    (
      managing max_conn [] [] 0 [],
      managing max_conn [] (key ∷ []) 1 [],
      ap (disconnect key) (tear_down_only max_conn a) ∙ disconnect_only max_conn a,
      begin_first max_conn key,
      (
        ap (λ m. m.conns) again,
        ap (λ m. m.live) again,
        ap (λ m. m.conns) gone,
        ap (λ m. m.live) gone,
      ),
    )
