-- ===== src/HostResolver/Names.antt =====
-- Host names with and without brackets, and the options by name (muim/screen/host_resolver.cpp).
use tor_onion.Common.{
  ℕ, ◌-◌, ◌≡◌, refl, ap, ◌∙◌, Bool, true, false, none, some, [], ◌∷◌, ◌++◌, suc, ◌==◌, ltb, length,
  take, arith, length-append, is_empty, ◌≤◌, ◌⊎◌, inl, inr, lt→ltb, value_or,
}
use tor_onion.HostResolver.{
  Text, scheme_host_port, host_port_pair, without_brackets, get_hostname_without_brackets,
  get_hostname, Printing, open_bracket, close_bracket, front, back, Dict, HttpsSvcbOptions,
  OptionKey, get_port, insecure_extra_time_max_key, insecure_extra_time_percent_key,
  insecure_extra_time_min_key, secure_extra_time_max_key, secure_extra_time_percent_key,
  secure_extra_time_min_key, from_dict, from_features, time_delta_from_dict,
}

back-snoc : (h : Text) (c : ℕ) → back (h ++ (c ∷ [])) ≡ c
back-snoc [] c = refl
back-snoc (x ∷ []) c = refl
back-snoc (x ∷ y ∷ h) c = back-snoc (y ∷ h) c

take-snoc : (h : Text) (c : ℕ) → take (length h) (h ++ (c ∷ [])) ≡ h
take-snoc [] c = refl
take-snoc (x ∷ h) c = ap (◌∷◌ x) (take-snoc h c)

abbrev bracketed : Text → Text
bracketed h = open_bracket ∷ (h ++ (close_bracket ∷ []))

length_filled : (h : Text) → is_empty h ≡ false → 1 ≤ length h
length_filled [] e = cc
length_filled (x ∷ h) e = omega arith

without_brackets-bracketed : (h : Text) → is_empty h ≡ false → without_brackets (bracketed h) ≡ h
unfolding without_brackets
without_brackets-bracketed h filled =
    let long = length_filled h filled in
    let whole : length (bracketed h) ≡ suc (suc (length h)) =
      omega (arith, length-append h (close_bracket ∷ [])) in
    let test : ltb 2 (length (bracketed h)) ≡ true = lt→ltb 2 _ (omega arith) in
    let rest : length (bracketed h) - 2 ≡ length h = omega arith in
    let last : back (bracketed h) ≡ close_bracket = back-snoc (open_bracket ∷ h) close_bracket in
    rw (test, without_brackets) (rw (last, rest) (take-snoc h close_bracket))

without_brackets-plain : (h : Text) → (front h == open_bracket) ≡ false → without_brackets h ≡ h
unfolding without_brackets
without_brackets-plain h e = ground arith

-- A pair whose host is not empty and does not begin with a bracket, made a scheme-host-port with the
-- host that it prints in a URL, in brackets or as it is: the name without brackets is the pair's
-- own, in either form, and the port and the printed host are the same.
pub hostname_forms_agree :
    (pr : Printing) (scheme host : Text) (port : ℕ)
    → is_empty host ≡ false
    → (front host == open_bracket) ≡ false
    → (pr.host_for_url host ≡ bracketed host) ⊎ (pr.host_for_url host ≡ host)
    → let pair = host_port_pair host port in
      let full = scheme_host_port scheme (get_hostname pr pair) port in
      (get_hostname_without_brackets full ≡ get_hostname_without_brackets pair)
      × (get_hostname pr full ≡ get_hostname pr pair)
      × (get_port full ≡ get_port pair)
unfolding get_hostname_without_brackets get_hostname get_port
hostname_forms_agree pr scheme host port filled plain (inl e) =
    (ap without_brackets e ∙ without_brackets-bracketed host filled, refl, refl)
hostname_forms_agree pr scheme host port filled plain (inr e) =
    (ap without_brackets e ∙ without_brackets-plain host plain, refl, refl)

-- The keys whose values are times, given as text; the others are percentages, given as numbers.
abbrev pub is_time : OptionKey → Bool
is_time insecure_extra_time_percent_key = false
is_time secure_extra_time_percent_key = false
is_time _ = true

-- What the dictionary holds for a key is what the features give for it, a time printed.
pub record Prints (d : Dict) (get : OptionKey → ℕ) : Type 0 where
  pub as_text :
      (k : OptionKey)
      → is_time k ≡ true
      → (t : Text) × (d.find_string k ≡ some t) × (d.time_delta_from_string t ≡ some (get k))
  pub as_int : (k : OptionKey) → is_time k ≡ false → d.find_int k ≡ some (get k)

time_delta-Prints :
    (d : Dict) (get : OptionKey → ℕ) (k : OptionKey) (out : ℕ)
    → is_time k ≡ true
    → Prints d get
    → time_delta_from_dict d k out ≡ get k
unfolding time_delta_from_dict
time_delta-Prints d get k out time v =
    let (t, found, read) = v.as_text k time in rw (found, time_delta_from_dict) (rw read refl)

-- A dictionary that holds the parameters of the features, the times as text and the percentages as
-- numbers, gives the options of the features, whatever
-- the defaults; one that holds nothing gives the defaults.
pub from_dict-from_features :
    (defaults : HttpsSvcbOptions) (d e : Dict) (get : OptionKey → ℕ)
    → Prints d get
    → ((k : OptionKey) → e.find_string k ≡ none)
    → ((k : OptionKey) → e.find_int k ≡ none)
    → (from_dict defaults d ≡ from_features get) × (from_dict defaults e ≡ defaults)
unfolding from_dict from_features time_delta_from_dict
from_dict-from_features defaults d e get v no_text no_int = (
  (λ i. record {
    insecure_extra_time_max =
        time_delta-Prints d get insecure_extra_time_max_key defaults.insecure_extra_time_max refl v
          i;
    insecure_extra_time_percent =
        value_of insecure_extra_time_percent_key defaults.insecure_extra_time_percent refl i;
    insecure_extra_time_min =
        time_delta-Prints d get insecure_extra_time_min_key defaults.insecure_extra_time_min refl v
          i;
    secure_extra_time_max =
        time_delta-Prints d get secure_extra_time_max_key defaults.secure_extra_time_max refl v i;
    secure_extra_time_percent =
        value_of secure_extra_time_percent_key defaults.secure_extra_time_percent refl i;
    secure_extra_time_min =
        time_delta-Prints d get secure_extra_time_min_key defaults.secure_extra_time_min refl v i;
  }),
  (λ i. record {
    insecure_extra_time_max =
        kept_time insecure_extra_time_max_key defaults.insecure_extra_time_max i;
    insecure_extra_time_percent =
        kept_value insecure_extra_time_percent_key defaults.insecure_extra_time_percent i;
    insecure_extra_time_min =
        kept_time insecure_extra_time_min_key defaults.insecure_extra_time_min i;
    secure_extra_time_max = kept_time secure_extra_time_max_key defaults.secure_extra_time_max i;
    secure_extra_time_percent =
        kept_value secure_extra_time_percent_key defaults.secure_extra_time_percent i;
    secure_extra_time_min = kept_time secure_extra_time_min_key defaults.secure_extra_time_min i;
  }),
)
  where
    value_of : (k : OptionKey) (out : ℕ) → is_time k ≡ false → value_or (d.find_int k) out ≡ get k
    value_of k out percent = rw (v.as_int k percent) refl

    kept_time : (k : OptionKey) (out : ℕ) → time_delta_from_dict e k out ≡ out
    kept_time k out = rw (no_text k, time_delta_from_dict) refl

    kept_value : (k : OptionKey) (out : ℕ) → value_or (e.find_int k) out ≡ out
    kept_value k out = rw (no_int k) refl
