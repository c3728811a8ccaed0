-- ===== src/Middleware/SignOut.antt =====
-- What a sign out does to the sessions.
use stock_track.Common.{
  ℕ, ◌≡◌, ◌≢◌, refl, sym, inl, inr, Bool, true, false, none, some, List, [], ◌∷◌, String, str_eq,
  eq_iff, ◌==◌, any, Bool-cases, arith,
}
use stock_track.Common.Int.{pos}
use stock_track.Middleware.{
  Request, User, Services, has_session, read_session, session_user_id, logout,
}

clash : {b : Bool} → b ≡ false → b ≡ true → ⊥
clash p q = cc

-- No row has the user's id and the old nonce.
logout-own :
    (n : ℕ) (old new : String) (users : List User)
    → str_eq new old ≡ false
    → any (has_session (pos n) old) (logout (some (pos n)) new users) ≡ false
unfolding any logout
logout-own n old new [] h = refl
logout-own n old new (u ∷ users) h = elim (Bool-cases (u.id == n)) [
  | inl e ↦ rw e (rw (e, h) (logout-own n old new users h))
  | inr e ↦ rw e (rw e (logout-own n old new users h))
]

logout-others :
    (n m : ℕ) (old new : String) (users : List User)
    → m ≢ n
    → any (has_session (pos m) old) (logout (some (pos n)) new users)
      ≡ any (has_session (pos m) old) users
unfolding any logout
logout-others n m old new [] h = refl
logout-others n m old new (u ∷ users) h = elim (Bool-cases (u.id == n)) [
  | inl e ↦
      let apart : (u.id == m) ≡ false = ground arith in
      rw (e, apart) (logout-others n m old new users h)
  | inr e ↦ rw (e, logout-others n m old new users h) refl
]

-- A sign out ends every session of its user at once: a cookie with a nonce that is not the new one
-- matches none of the users after it. The sessions of the other users go on as before.
pub logout_ends_sessions :
    (v : Services) (users : List User) (r : Request) (n m : ℕ) (old new : String)
    → read_session v r.session_cookie ≡ some (pos m, old)
    → (m ≡ n → old ≢ new → session_user_id v (logout (some (pos n)) new users) r ≡ none)
      × (m ≢ n → session_user_id v (logout (some (pos n)) new users) r ≡ session_user_id v users r)
unfolding session_user_id
logout_ends_sessions v users r n m old new h = (
  λ e ne. rw (h, e) (rw (logout-own n old new users (differ ne)) refl),
  λ ne. rw h (rw (logout-others n m old new users ne) refl),
)
  where
    differ : old ≢ new → str_eq new old ≡ false
    differ ne = elim (Bool-cases (str_eq new old)) [
      | inl e ↦ absurd (ne (sym ((eq_iff new old).0 e)))
      | inr e ↦ e
    ]
