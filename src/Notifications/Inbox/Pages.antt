-- ===== src/Notifications/Inbox/Pages.antt =====
-- The pages of a list of notifications.
use spoutbreeze_backend.Prelude.{
  ℕ, zero, suc, ◌+◌, ◌-◌, ◌*◌, ◌≤◌, ◌≡◌, refl, ap, sym, ◌∙◌, Bool, Option, List, [], ◌∷◌, ◌++◌,
  String, arith, length, keep,
}
use spoutbreeze_backend.Notifications.Store.{Notification, World}
use spoutbreeze_backend.Notifications.Inbox.{drop, take, wanted, get_notifications}

take_nil : (k : ℕ) → take k [] ≡ []
unfolding take
take_nil zero = refl
take_nil (suc k) = refl

take-drop : (k s : ℕ) (ns : List Notification) → take k ns ++ take s (drop k ns) ≡ take (k + s) ns
unfolding take drop
take-drop zero s ns = let e : zero + s ≡ s = omega arith in rw e refl
take-drop (suc k) s [] = take_nil s ∙ sym (take_nil (suc k + s))
take-drop (suc k) s (n ∷ ns) =
    let e : suc k + s ≡ suc (k + s) = omega arith in rw e (ap (λ x. n ∷ x) (take-drop k s ns))

length-take : (k : ℕ) (ns : List Notification) → length ns ≤ k → take k ns ≡ ns
unfolding take
length-take zero [] h = refl
length-take zero (n ∷ ns) h = absurd (omega (arith, h))
length-take (suc k) [] h = refl
length-take (suc k) (n ∷ ns) h = ap (λ x. n ∷ x) (length-take k ns (omega (arith, h)))

-- The items of the first pages, one page after the other.
abbrev pub first_pages : ℕ → ℕ → ℕ → Bool → Option String → World → List Notification
first_pages zero u size unread ty w = []
first_pages (suc n) u size unread ty w =
    first_pages n u size unread ty w ++ (get_notifications u (suc n) size unread ty w).0.items

first_pages-take :
    (n u size : ℕ) (unread : Bool) (ty : Option String) (w : World)
    → first_pages n u size unread ty w ≡ take (n * size) (keep (wanted u unread ty) w.notifications)
unfolding get_notifications
first_pages-take zero u size unread ty w = let e : zero * size ≡ 0 = omega arith in rw e refl
first_pages-take (suc n) u size unread ty w =
    let ns = keep (wanted u unread ty) w.notifications in
    let e : suc n * size ≡ n * size + size = ground arith in
    let before : suc n - 1 ≡ n = omega arith in
    rw e (
      rw before (
        ap (λ x. x ++ take size (drop (n * size) ns)) (first_pages-take n u size unread ty w)
        ∙ take-drop (n * size) size ns))

-- Pages that reach to the total number hold, one after the other, exactly the notifications that
-- the filters ask for, each once and newest first.
pub get_notifications-pages :
    (n u size : ℕ) (unread : Bool) (ty : Option String) (w : World)
    → (get_notifications u 1 size unread ty w).0.total ≤ n * size
    → first_pages n u size unread ty w ≡ keep (wanted u unread ty) w.notifications
unfolding get_notifications
get_notifications-pages n u size unread ty w h =
    first_pages-take n u size unread ty w
    ∙ length-take (n * size) (keep (wanted u unread ty) w.notifications) h
