-- ===== src/Tmux/Keys.antt =====
-- What `send_keys` sends when it waits for the command.
use aenvironment.Common.{◌≡◌, refl, ap, ◌∙◌, true, false, List, [], ◌∷◌, ◌++◌, All}
use aenvironment.Common.Text.{Str}
use aenvironment.Tmux.{
  is_enter, completion_keys, ends_with_enter, cons_kept, drop_enters, prepare_keys, but_two,
  send_command, unless_empty, send_keys,
}

drop-All : (es : List Str) → All (λ k. is_enter k ≡ true) es → drop_enters es ≡ []
drop-All [] _ = refl
drop-All (e ∷ es) (h, hs) = ap (cons_kept e) (drop-All es hs) ∙ rw h refl

-- The keys in front of the closing Enters are kept.
drop_tail :
    (k : Str) (ks es : List Str)
    → ends_with_enter (k ∷ ks) ≡ false
    → All (λ k. is_enter k ≡ true) es
    → drop_enters (k ∷ (ks ++ es)) ≡ k ∷ ks
drop_tail k [] es h hs = ap (cons_kept k) (drop-All es hs) ∙ rw h refl
drop_tail k (j ∷ ks) es h hs = ap (cons_kept k) (drop_tail j ks es h hs)

drop_body :
    (ks es : List Str)
    → ends_with_enter ks ≡ false
    → All (λ k. is_enter k ≡ true) es
    → drop_enters (ks ++ es) ≡ ks
drop_body [] es h hs = drop-All es hs
drop_body (k ∷ ks) es h hs = drop_tail k ks es h hs

ends_after :
    (ks : List Str) (e : Str) (es : List Str)
    → All (λ k. is_enter k ≡ true) (e ∷ es)
    → ends_with_enter (ks ++ e ∷ es) ≡ true
ends_after [] e [] (h, _) = h
ends_after [] e (d ∷ es) (h, hs) = ends_after [] d es hs
ends_after (k ∷ []) e es h = ends_after [] e es h
ends_after (k ∷ j ∷ ks) e es h = ends_after (j ∷ ks) e es h

but_two_append : (ks : List Str) (a b : Str) → but_two (ks ++ a ∷ b ∷ []) ≡ ks
but_two_append [] a b = refl
but_two_append (k ∷ []) a b = refl
but_two_append (k ∷ j ∷ []) a b = refl
but_two_append (k ∷ j ∷ i ∷ ks) a b = ap (λ t. k ∷ t) (but_two_append (j ∷ i ∷ ks) a b)

-- Where keys that end with at least one Enter are sent with `block`, the keys in front of the
-- closing Enters are sent by a command of their own, if there are any, then the completion command
-- with one Enter, and the completion is waited for.
pub send_keys-blocks :
    (session : Str) (ks : List Str) (e : Str) (es : List Str)
    → ends_with_enter ks ≡ false
    → All (λ k. is_enter k ≡ true) (e ∷ es)
    → send_keys session (ks ++ e ∷ es) true
      ≡ (unless_empty session ks ++ send_command session completion_keys ∷ [], true)
unfolding send_keys prepare_keys
send_keys-blocks session ks e es h hs =
    rw (ends_after ks e es hs, drop_body ks (e ∷ es) h hs)
      (ap (λ t. (unless_empty session t ++ send_command session completion_keys ∷ [], true))
        (but_two_append ks _ _))
