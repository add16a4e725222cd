-- ===== src/Billing/Offers.antt =====
-- frontend/app/app/billing/page.tsx:
-- What the page offers.
use blackbox_agent_accountab.Prelude.{
  ◌≡◌, Bool, true, false, not, ◌||◌, Option, none, some, [], ◌∷◌, All, All-append, if◌then◌else◌,
  present, arith,
}
use blackbox_agent_accountab.View.{Node, button, Calls, when, All-when, All-if}
use blackbox_agent_accountab.Billing.{Page, Usage, Event, click_upgrade, click_manage, handle}
use blackbox_agent_accountab.Billing.View.{
  is_pro, is_checkout, is_portal, show_usage, show_upgrade, show_manage, show_plan, view,
}

-- The checkout is for a page whose plan is not "pro", the portal for one whose plan is.
abbrev Suits : Page → Event → Type 0
Suits s click_upgrade = is_pro s.plan ≡ false
Suits s click_manage = is_pro s.plan ≡ true
Suits s _ = Unit

-- A button that suits the plan, and makes a call if it is enabled.
abbrev pub IsOffer : Page → Node Event → Type 0
IsOffer s (button label disabled a) = Suits s a × Calls handle s (button label disabled a)
IsOffer s _ = Unit

if_not : (b : Bool) → not b ≡ true → b ≡ false
if_not b h = ground arith

usage-IsOffer : (s : Page) (o : Option Usage) → All (IsOffer s) (show_usage o)
usage-IsOffer s none = tt
usage-IsOffer s (some u) = (tt, (tt, tt))

module _ (s : Page) (signed : present s.token ≡ true) where
  upgrade-Calls : (b : Bool) → Calls handle s (button "" (not (present s.email) || b) click_upgrade)
  unfolding handle
  upgrade-Calls b = ground arith

  manage-Calls : (b : Bool) → Calls handle s (button "" b click_manage)
  unfolding handle
  manage-Calls true = tt
  manage-Calls false = ground arith

  plan-IsOffer : All (IsOffer s) (show_plan s)
  plan-IsOffer = (
    tt,
    All-append (IsOffer s) (show_usage s.usage) _ (usage-IsOffer s s.usage) (
        All-append (IsOffer s) (when (not (is_pro s.plan)) (show_upgrade s ∷ [])) _
          (All-when (IsOffer s) (not (is_pro s.plan)) _
            (λ h. ((if_not (is_pro s.plan) h, upgrade-Calls (is_checkout s.busy)), tt)))
          (All-append (IsOffer s) (when (is_pro s.plan) (show_manage s ∷ [])) _
            (All-when (IsOffer s) (is_pro s.plan) _
              (λ h. ((h, manage-Calls (is_portal s.busy)), tt)))
            (All-when (IsOffer s) (present s.err) _ (λ _. (tt, tt))))),
  )

  -- With a session: a button for the checkout is there only if the plan is not "pro", one for the
  -- portal only if it is, and a click on either makes a call whenever it is enabled.
  pub view-IsOffer : All (IsOffer s) (view s)
  unfolding view
  view-IsOffer =
      All-append (IsOffer s) (when s.just_upgraded _) _
        (All-when (IsOffer s) s.just_upgraded _ (λ _. (tt, tt)))
        (All-append (IsOffer s) (if s.loading then _ else show_plan s) _
          (All-if (IsOffer s) s.loading _ _ (λ _. (tt, tt)) (λ _. plan-IsOffer))
          (All-when (IsOffer s) (not (is_pro s.plan)) _ (λ _. (tt, tt))))
