-- ===== src/Push/Targets.antt =====
-- Which tokens are pushed to, and which are deleted.
use mortstack.Prelude.{
  any, ◌⊎◌, inl, inr, Bool-cases, if◌then◌else◌, none, String, ◌≡◌, refl, ap, ◌∙◌, Bool, true,
  false, not, ◌==◌, ◌&&◌, ◌||◌, some, List, [], ◌∷◌, ◌++◌, keep_if, keep_if-keep_if, arith,
}
use mortstack.Js.Try.{Try, gave, threw}
use mortstack.Chat.{ChatDelivered}
use mortstack.Push.{
  PushPlatform, apns, fcm, PushToken, Services, is_apns, is_fcm, is_dead_apns, is_dead_fcm,
  is_selected, is_detached, send_apns, send_fcm, delete_tokens, cleaned_up, dispatch,
}
use mortstack.Push.Deletion.{ids, HasDistinctIds, delete_tokens-append}

-- A token of a recipient that is enabled, on a device without a connection.
abbrev pub is_wanted : ChatDelivered → PushToken → Bool
is_wanted ev t = is_selected ev t && is_detached ev t

-- What the token's own service says of it.
abbrev pub is_dead : Services → ChatDelivered → PushToken → Bool
is_dead s ev t = elim t.platform [
  | apns ↦ is_dead_apns (s.ask_apns ev t)
  | fcm ↦ is_dead_fcm (s.ask_fcm ev t)
]

-- What a login that works, or not, lets a service do.
abbrev pub has_apns : Try String → Bool
has_apns (gave jwt) = true
has_apns (threw err) = false

abbrev pub has_fcm : Try String → Bool
has_fcm (gave access) = not (access == "")
has_fcm (threw err) = false

abbrev pub is_exception : Try String → Bool
is_exception (gave a) = false
is_exception (threw err) = true

-- A token that is wanted and whose service can be asked.
abbrev pub is_asked : Services → ChatDelivered → PushToken → Bool
is_asked s ev t =
    is_wanted ev t && elim t.platform [ apns ↦ has_apns s.apns_jwt | fcm ↦ has_fcm s.fcm_access ]

-- A login throws that is needed.
abbrev pub is_thrown : Services → ChatDelivered → List PushToken → Bool
is_thrown s ev tokens =
    (is_exception s.apns_jwt && any (λ t. is_wanted ev t && is_apns t) tokens)
    || (is_exception s.fcm_access && any (λ t. is_wanted ev t && is_fcm t) tokens)

split_by :
    (platform : PushPlatform) (w a f b g : Bool)
    → ((w && elim platform [ apns ↦ a | fcm ↦ f ]) && elim platform [ apns ↦ b | fcm ↦ g ]) ≡ (
        (w && (elim platform [ apns ↦ true | fcm ↦ false ] && (a && b)))
        || (w && (elim platform [ apns ↦ false | fcm ↦ true ] && (f && g))))
split_by apns w a f b g = ground arith
split_by fcm w a f b g = ground arith

Try-cases : (l : Try String) → ((a : String) × (l ≡ gave a)) ⊎ ((err : String) × (l ≡ threw err))
Try-cases (gave a) = inl (a, refl)
Try-cases (threw err) = inr (err, refl)

keep_every : (ts : List PushToken) → keep_if (λ t. true) ts ≡ ts
keep_every [] = refl
keep_every (t ∷ ts) = ap (◌∷◌ t) (keep_every ts)

keep_nothing : (ts : List PushToken) → keep_if (λ t. false) ts ≡ []
keep_nothing [] = refl
keep_nothing (t ∷ ts) = keep_nothing ts

keep_all_or_none : (b : Bool) (ts : List PushToken) → keep_if (λ t. b) ts ≡ (if b then ts else [])
keep_all_or_none true ts = keep_every ts
keep_all_or_none false ts = keep_nothing ts

keep_some_or_none :
    (b : Bool) (d : PushToken → Bool) (ts : List PushToken)
    → keep_if (λ t. b && d t) ts ≡ (if b then keep_if d ts else [])
keep_some_or_none true d ts = refl
keep_some_or_none false d ts = keep_nothing ts

any-keep_if :
    (p : PushToken → Bool) (ts : List PushToken) → any (λ t. true) (keep_if p ts) ≡ any p ts
any-keep_if p [] = refl
any-keep_if p (t ∷ ts) = ground (arith, any-keep_if p ts)

module _ (w a d : PushToken → Bool) where
  keep_if_three :
      (xs : List PushToken)
      → keep_if d (keep_if (λ t. w t && a t) xs) ≡ keep_if (λ t. w t && (a t && d t)) xs
  keep_if_three xs =
      keep_if-keep_if d (λ t. w t && a t) (λ t. w t && (a t && d t)) xs (λ t. ground arith)

cleaned_up_lem :
    (tokens a f : List PushToken) (dead dead' : List String) (x y : Bool)
    → cleaned_up tokens (a, if x then none else some dead) (f, if y then none else some dead')
      ≡ (a ++ f, if x || y then none else some (delete_tokens (dead ++ dead') tokens))
unfolding cleaned_up
cleaned_up_lem tokens a f dead dead' true y = refl
cleaned_up_lem tokens a f dead dead' false true = refl
cleaned_up_lem tokens a f dead dead' false false = refl

module _ (s : Services) (ev : ChatDelivered) where
  send_apns_lem :
      (ts : List PushToken)
      → send_apns s ts ev ≡ (
        keep_if (λ r. has_apns s.apns_jwt) ts,
        if is_exception s.apns_jwt && any (λ r. true) ts
            then none
            else some
                (ids (keep_if (λ r. has_apns s.apns_jwt && is_dead_apns (s.ask_apns ev r)) ts)),
      )
  unfolding send_apns
  send_apns_lem [] = elim (Try-cases s.apns_jwt) [
    | inl (jwt, e) ↦ rw e refl
    | inr (err, e) ↦ rw e refl
  ]
  send_apns_lem (t ∷ ts) =
      let d = λ (r : PushToken). is_dead_apns (s.ask_apns ev r) in
      let all = keep_all_or_none (has_apns s.apns_jwt) (t ∷ ts) in
      let dead = keep_some_or_none (has_apns s.apns_jwt) d (t ∷ ts) in
      elim (Try-cases s.apns_jwt) [
        | inl (jwt, e) ↦ rw (all, dead, e) refl
        | inr (err, e) ↦ rw (all, dead, e) refl
      ]

  send_fcm_lem :
      (ts : List PushToken)
      → send_fcm s ts ev ≡ (
        keep_if (λ r. has_fcm s.fcm_access) ts,
        if is_exception s.fcm_access && any (λ r. true) ts
            then none
            else some
                (ids (keep_if (λ r. has_fcm s.fcm_access && is_dead_fcm (s.ask_fcm ev r)) ts)),
      )
  unfolding send_fcm
  send_fcm_lem [] = elim (Try-cases s.fcm_access) [
    | inl (access, e) ↦ rw e refl
    | inr (err, e) ↦ rw e refl
  ]
  send_fcm_lem (t ∷ ts) =
      let d = λ (r : PushToken). is_dead_fcm (s.ask_fcm ev r) in
      let all = keep_all_or_none (has_fcm s.fcm_access) (t ∷ ts) in
      let dead = keep_some_or_none (has_fcm s.fcm_access) d (t ∷ ts) in
      elim (Try-cases s.fcm_access) [
        | inl (access, e) ↦ elim (Bool-cases (access == "")) [
          | inl f ↦ rw (all, dead, e, f) refl
          | inr f ↦ rw (all, dead, e, f) refl
        ]
        | inr (err, e) ↦ rw (all, dead, e) refl
      ]

  split_dead :
      (t : PushToken)
      → (is_asked s ev t && is_dead s ev t) ≡ (
          (is_wanted ev t && (is_apns t && (has_apns s.apns_jwt && is_dead_apns (s.ask_apns ev t))))
          || (is_wanted ev t
              && (is_fcm t && (has_fcm s.fcm_access && is_dead_fcm (s.ask_fcm ev t)))))
  split_dead t =
      split_by t.platform (is_wanted ev t) (has_apns s.apns_jwt) (has_fcm s.fcm_access)
        (is_dead_apns (s.ask_apns ev t)) (is_dead_fcm (s.ask_fcm ev t))

  -- Where no id comes twice in the table: a delivery asks the services for the tokens that are
  -- enabled, of a recipient, and on a device without a connection, and whose service has a login that
  -- works, those of APNs first and each in the order of the table, and for no others. It throws
  -- exactly if a login throws whose service has a token that is wanted; else the table is then without
  -- the tokens asked for that their own service calls dead, and else as it was.
  pub dispatch_follows :
      (tokens : List PushToken)
      → HasDistinctIds tokens
      → dispatch s ev tokens ≡ (
        keep_if (λ t. (is_wanted ev t && is_apns t) && has_apns s.apns_jwt) tokens
            ++ keep_if (λ t. (is_wanted ev t && is_fcm t) && has_fcm s.fcm_access) tokens,
        if is_thrown s ev tokens
            then none
            else some (keep_if (λ t. not (is_asked s ev t && is_dead s ev t)) tokens),
      )
  unfolding dispatch
  dispatch_follows tokens distinct =
      let w = is_wanted ev in
      let a = λ (t : PushToken). w t && is_apns t in
      let f = λ (t : PushToken). w t && is_fcm t in
      let ha = has_apns s.apns_jwt in
      let hf = has_fcm s.fcm_access in
      let d = λ (t : PushToken). ha && is_dead_apns (s.ask_apns ev t) in
      let e = λ (t : PushToken). hf && is_dead_fcm (s.ask_fcm ev t) in
      let wanted = keep_if-keep_if (is_detached ev) (is_selected ev) w tokens (λ t. refl) in
      rw
        (
          wanted,
          keep_if-keep_if is_apns w a tokens (λ t. refl),
          keep_if-keep_if is_fcm w f tokens (λ t. refl),
          send_apns_lem (keep_if a tokens),
          send_fcm_lem (keep_if f tokens),
          keep_if-keep_if (λ t. ha) a (λ t. a t && ha) tokens (λ t. refl),
          keep_if-keep_if (λ t. hf) f (λ t. f t && hf) tokens (λ t. refl),
          any-keep_if a tokens,
          any-keep_if f tokens,
          keep_if_three w is_apns d tokens,
          keep_if_three w is_fcm e tokens,
        )
        (cleaned_up_lem tokens (keep_if (λ t. a t && ha) tokens) (keep_if (λ t. f t && hf) tokens)
            (ids (keep_if (λ t. w t && (is_apns t && d t)) tokens))
            (ids (keep_if (λ t. w t && (is_fcm t && e t)) tokens))
            (is_exception s.apns_jwt && any a tokens) (is_exception s.fcm_access && any f tokens)
          ∙ ap
              (λ left. (
                keep_if (λ t. a t && ha) tokens ++ keep_if (λ t. f t && hf) tokens,
                if is_thrown s ev tokens then none else some left,
              ))
              (delete_tokens-append (λ t. w t && (is_apns t && d t)) (λ t. w t && (is_fcm t && e t))
                (λ t. is_asked s ev t && is_dead s ev t) split_dead tokens distinct))
