-- ===== src/Discovery/Routing/Gateways.antt =====
-- What `CheckRouting` reads off the output of `ip route get` on Linux.
use mavlink_doctor.Common.{
  ℕ, Bool, true, false, none, some, List, [], ◌∷◌, ◌++◌, ◌≡◌, ◌≢◌, refl, sym, ap, ◌∙◌, Bytes,
  Bytes-Eq, codes, All, append_assoc, arith, ==_false, bytes_eq, subst, Result, ok, Option,
}
use mavlink_doctor.Common.Ascii.{IsWord, NotSpace, word_solid}
use mavlink_doctor.Common.Fields.{
  contains_text, contains-found, trim_space_output, IsSpread, IsBlank, spread, words_of,
  fields-spread,
}
use mavlink_doctor.Discovery.Types.{RouteResult}
use mavlink_doctor.Discovery.Sockets.{linux}
use mavlink_doctor.Discovery.Routing.Between.{contains-solid, contains-spread}
use mavlink_doctor.Discovery.Routing.{
  ToolFailure, Ping, target_of, check_routing, fresh_route, route_linux, scan_fields, note_field,
}

-- A word that the scan passes over.
abbrev pub IsPlain : Bytes → Type 0
IsPlain w = (codes "dev" ≢ w) × (codes "via" ≢ w)

note_plain : (r : RouteResult) (w next : Bytes) → IsPlain w → note_field r w next ≡ r
note_plain r w next h =
    rw (==_false w (codes "dev") (λ e. h.0 (sym e)), ==_false w (codes "via") (λ e. h.1 (sym e)))

scan_plain :
    (r : RouteResult) (w : Bytes) (ws : List Bytes)
    → IsPlain w
    → scan_fields r (w ∷ ws) ≡ scan_fields r ws
unfolding scan_fields
scan_plain r w [] h = refl
scan_plain r w (v ∷ ws) h = ap (λ q. scan_fields q (v ∷ ws)) (note_plain r w v h)

scan-All_plain : (r : RouteResult) (ws : List Bytes) → All IsPlain ws → scan_fields r ws ≡ r
unfolding scan_fields
scan-All_plain r [] h = refl
scan-All_plain r (w ∷ ws) h = scan_plain r w ws h.0 ∙ scan-All_plain r ws h.1

scan_dev :
    (r : RouteResult) (dev : Bytes) (rest : List Bytes)
    → IsPlain dev
    → All IsPlain rest
    → scan_fields r (codes "dev" ∷ dev ∷ rest) ≡ record r { interface = dev }
unfolding scan_fields codes bytes_eq
scan_dev r dev rest h k = scan-All_plain (record r { interface = dev }) (dev ∷ rest) (h, k)

first_via :
    (r : RouteResult) (gateway : Bytes) (rest : List Bytes)
    → scan_fields r (codes "via" ∷ gateway ∷ rest)
      ≡ scan_fields (record r { gateway = gateway }) (gateway ∷ rest)
unfolding scan_fields codes bytes_eq
first_via r gateway rest = refl

scan_via :
    (r : RouteResult) (gateway dev : Bytes) (rest : List Bytes)
    → IsPlain gateway
    → IsPlain dev
    → All IsPlain rest
    → scan_fields r (codes "via" ∷ gateway ∷ codes "dev" ∷ dev ∷ rest)
      ≡ record r { interface = dev; gateway = gateway }
scan_via r gateway dev rest g h k =
    first_via r gateway (codes "dev" ∷ dev ∷ rest)
    ∙ scan_plain (record r { gateway = gateway }) gateway (codes "dev" ∷ dev ∷ rest) g
    ∙ scan_dev (record r { gateway = gateway }) dev rest h k

-- A line of `ip route get`: the target, then, after any blanks, the device and other words.
pub record IsRoute (target dev : Bytes) (rest : List Bytes) (ps : List (ℕ × Bytes × Bytes))
    : Type 0 where
  pub target_word : IsWord target
  pub target_plain : IsPlain target
  pub spaced : IsSpread ps
  pub words : words_of ps ≡ codes "dev" ∷ dev ∷ rest
  pub dev_plain : IsPlain dev
  pub rest_plain : All IsPlain rest

plain_not_via : (ws : List Bytes) → All IsPlain ws → All (λ w. codes "via" ≢ w) ws
plain_not_via [] h = tt
plain_not_via (w ∷ ws) h = (h.0.1, plain_not_via ws h.1)

dev_not_via : codes "via" ≢ codes "dev"
unfolding codes
dev_not_via e = ground arith

via_solid : All NotSpace (codes "via")
unfolding codes
via_solid = (refl, (refl, (refl, tt)))

-- The blanks before "via" and that word, where the last blank is a space.
abbrev pub via_word : Bytes → ℕ × Bytes × Bytes
via_word [] = (32, [], codes "via")
via_word (c ∷ cs) = (c, cs ++ 32 ∷ [], codes "via")

IsBlank-space : (s : Bytes) → IsBlank s → IsBlank (s ++ 32 ∷ [])
IsBlank-space [] h = (refl, tt)
IsBlank-space (c ∷ cs) h = (h.0, IsBlank-space cs h.1)

-- What a route says of the way to the target.
abbrev pub Reads : Bytes → Bytes → Bool → Option RouteResult → Type 0
Reads dev gateway direct none = ⊥
Reads dev gateway direct (some q) =
    (q.interface ≡ dev) × (q.gateway ≡ gateway) × (q.is_direct ≡ direct)

module _ (target dev : Bytes) (rest : List Bytes) (ps : List (ℕ × Bytes × Bytes))
    (h : IsRoute target dev rest ps) where
  no_via : contains_text (codes " via ") (target ++ spread ps) ≡ false
  unfolding codes
  no_via =
      let others : All (λ w. codes "via" ≢ w) (words_of ps) =
        subst (All (λ w. codes "via" ≢ w)) (sym h.words)
          (dev_not_via, (h.dev_plain.1, plain_not_via rest h.rest_plain)) in
      contains-solid (codes "via") via_solid target (spread ps) (word_solid target h.target_word)
      ∙ contains-spread b'v' (b'i' ∷ b'a' ∷ []) via_solid ps h.spaced others

  -- The fields of a printed route.
  abbrev printed : Bytes → Bytes → Bool → RouteResult → RouteResult
  printed text gateway direct r = record r {
    route_output = text;
    is_direct = direct;
    interface = dev;
    gateway = gateway;
  }

  direct_route :
      (r : RouteResult) (blank : Bytes)
      → IsBlank blank
      → route_linux r ((target ++ spread ps) ++ blank)
        ≡ printed (target ++ spread ps) r.gateway true r
  unfolding route_linux
  direct_route r blank b =
      let line = target ++ spread ps in
      let base : RouteResult = record r { route_output = line; is_direct = true } in
      rw (trim_space_output target ps blank h.target_word h.spaced b) (
        rw no_via (
          rw (fields-spread target ps h.target_word h.spaced) (
            scan_plain base target (words_of ps) h.target_plain
            ∙ ap (scan_fields base) h.words
            ∙ scan_dev base dev rest h.dev_plain h.rest_plain)))

  -- The blanks and words of a route through a gateway: any blanks before and after "via", with a space
  -- directly next to it on both sides.
  abbrev pub hop : (before after gateway : Bytes) → List (ℕ × Bytes × Bytes)
  hop before after gateway = via_word before ∷ (32, after, gateway) ∷ ps

  hop-IsSpread :
      (before after gateway : Bytes)
      → IsBlank before
      → IsBlank after
      → IsWord gateway
      → IsSpread (hop before after gateway)
  unfolding codes
  hop-IsSpread [] after gateway b a g =
      (refl, tt, (refl, (refl, (refl, tt))), (refl, a, g, h.spaced))
  hop-IsSpread (c ∷ before) after gateway b a g =
      (b.0, IsBlank-space before b.1, (refl, (refl, (refl, tt))), (refl, a, g, h.spaced))

  hop_words :
      (before after gateway : Bytes)
      → words_of (hop before after gateway) ≡ codes "via" ∷ gateway ∷ codes "dev" ∷ dev ∷ rest
  hop_words [] after gateway = ap (λ ws. codes "via" ∷ gateway ∷ ws) h.words
  hop_words (c ∷ before) after gateway = ap (λ ws. codes "via" ∷ gateway ∷ ws) h.words

  hop_via :
      (before after gateway : Bytes)
      → contains_text (codes " via ") (target ++ spread (hop before after gateway)) ≡ true
  unfolding codes
  hop_via [] after gateway = contains-found (codes " via ") target (after ++ (gateway ++ spread ps))
  hop_via (c ∷ before) after gateway =
      let tail = after ++ (gateway ++ spread ps) in
      ap (λ s. contains_text (codes " via ") (target ++ c ∷ s))
        (append_assoc before (32 ∷ []) (codes "via " ++ tail))
      ∙ ap (contains_text (codes " via "))
          (sym (append_assoc target (c ∷ before) (codes " via " ++ tail)))
      ∙ contains-found (codes " via ") (target ++ c ∷ before) tail

  gateway_route :
      (r : RouteResult) (before after gateway blank : Bytes)
      → IsBlank before
      → IsBlank after
      → IsWord gateway
      → IsPlain gateway
      → IsBlank blank
      → route_linux r ((target ++ spread (hop before after gateway)) ++ blank)
        ≡ printed (target ++ spread (hop before after gateway)) gateway false r
  unfolding route_linux
  gateway_route r before after gateway blank p q g plain b =
      let qs = hop before after gateway in
      let line = target ++ spread qs in
      let base : RouteResult = record r { route_output = line; is_direct = false } in
      let spaced = hop-IsSpread before after gateway p q g in
      rw (trim_space_output target qs blank h.target_word spaced b) (
        rw (hop_via before after gateway) (
          rw (fields-spread target qs h.target_word spaced) (
            scan_plain base target (words_of qs) h.target_plain
            ∙ ap (scan_fields base) (hop_words before after gateway)
            ∙ scan_via base gateway dev rest plain h.dev_plain h.rest_plain)))

  -- On Linux, for a target whose route the tool prints on a line: the target, then "via" and a gateway or
  -- neither, then "dev" and the device, then words other than these two; with any blanks between the
  -- words and after them, save that a space stands directly before "via" and directly after it. The
  -- report names the device and the gateway, or none, and it calls the route direct exactly when the line
  -- has no gateway.
  pub check_routing_reads :
      (address before after gateway blank : Bytes)
      (direct_tool via_tool : Bytes → Result ToolFailure Bytes) (ping : Bytes → Ping)
      → address ≢ []
      → IsBlank before
      → IsBlank after
      → IsWord gateway
      → IsPlain gateway
      → IsBlank blank
      → direct_tool (target_of address).0 ≡ ok ((target ++ spread ps) ++ blank)
      → via_tool (target_of address).0 ≡ ok ((target ++ spread (hop before after gateway)) ++ blank)
      → Reads dev [] true (check_routing linux address direct_tool ping)
        × Reads dev gateway false (check_routing linux address via_tool ping)
  unfolding check_routing
  check_routing_reads address before after gateway blank direct_tool via_tool ping given p q g plain
        b direct via =
      let r = fresh_route (target_of address) in
      let nonempty = ==_false address [] given in
      (
        rw (nonempty, direct) (rw (direct_route r blank b) (refl, refl, refl)),
        rw (nonempty, via)
            (rw (gateway_route r before after gateway blank p q g plain b) (refl, refl, refl)),
      )
