-- ===== src/Speech/Host.antt =====
-- batchkit_examples/speech_sdk/recognize.py: the URL of the endpoint that FileRecognizer makes, and what
-- `__recognize_in_subproc` takes it apart into. Texts are lists of code points.
use batch_processing_kit.Prelude.{
  ℕ, suc, ◌≡◌, refl, Bool, true, false, ◌&&◌, List, [], ◌∷◌, ◌++◌, Option, none, some,
  if◌then◌else◌, ◌==◌, nat_eq, arith, All, All-append, All-map, ap, ◌∙◌,
}
use batch_processing_kit.Prelude.Text.{codes}
use batch_processing_kit.BatchStatus.Paths.{digits, digits_decimal}

-- `"ws{0}://{1}:{2}".format(...)`
unfoldable pub host_url : Bool → List ℕ → ℕ → List ℕ
host_url is_secure host port =
    codes "ws"
    ++ ((if is_secure then codes "s" else [])
        ++ (codes "://" ++ (host ++ (codes ":" ++ digits (suc port) port))))

abbrev onto_first : ℕ → List (List ℕ) → List (List ℕ)
onto_first c [] = (c ∷ []) ∷ []
onto_first c (part ∷ parts) = (c ∷ part) ∷ parts

-- `text.split("//")`
unfoldable pub split_slashes : List ℕ → List (List ℕ)
split_slashes [] = [] ∷ []
split_slashes (c ∷ []) = (c ∷ []) ∷ []
split_slashes (c ∷ d ∷ text) =
    let after_both = split_slashes text in
    let after_one = split_slashes (d ∷ text) in
    if c == 47 && d == 47 then [] ∷ after_both else onto_first c after_one

-- `text.split(":")`
unfoldable pub split_colon : List ℕ → List (List ℕ)
split_colon [] = [] ∷ []
split_colon (c ∷ text) =
    let rest = split_colon text in if c == 58 then [] ∷ rest else onto_first c rest

-- The two targets of the assignment; `none` is the ValueError of another number of parts.
abbrev pub as_pair : List (List ℕ) → Option (List ℕ × List ℕ)
as_pair (address ∷ port ∷ []) = some (address, port)
as_pair _ = none

abbrev second_part : List (List ℕ) → List ℕ
second_part (a ∷ b ∷ parts) = b
second_part _ = []

-- `self._host.split("//")[1].split(":")`
unfoldable pub address_and_port : List ℕ → Option (List ℕ × List ℕ)
address_and_port url = as_pair (split_colon (second_part (split_slashes url)))

-- A text without a slash is one part.
abbrev NoSlash : ℕ → Type 0
NoSlash c = (c == 47) ≡ false

abbrev NoColon : ℕ → Type 0
NoColon c = (c == 58) ≡ false

split_slashes_one : (text : List ℕ) → All NoSlash text → split_slashes text ≡ text ∷ []
unfolding split_slashes
split_slashes_one [] h = refl
split_slashes_one (c ∷ []) h = refl
split_slashes_one (c ∷ d ∷ text) h = rw (h.0, split_slashes_one (d ∷ text) h.1)

split_colon_one : (text : List ℕ) → All NoColon text → split_colon text ≡ text ∷ []
unfolding split_colon
split_colon_one [] h = refl
split_colon_one (c ∷ text) h = rw (h.0, split_colon_one text h.1)

split_colon_two :
    (a b : List ℕ) → All NoColon a → All NoColon b → split_colon (a ++ 58 ∷ b) ≡ a ∷ b ∷ []
unfolding split_colon
split_colon_two [] b ha hb = rw (split_colon_one b hb)
split_colon_two (c ∷ a) b ha hb = rw (ha.0, split_colon_two a b ha.1 hb)

split_colon_three :
    (a b d : List ℕ)
    → All NoColon a
    → All NoColon b
    → All NoColon d
    → split_colon (a ++ 58 ∷ b ++ 58 ∷ d) ≡ a ∷ b ∷ d ∷ []
unfolding split_colon
split_colon_three [] b d ha hb hd = rw (split_colon_two b d hb hd)
split_colon_three (c ∷ a) b d ha hb hd = rw (ha.0, split_colon_three a b d ha.1 hb hd)

-- What stands before the host in the URL.
url_parts :
    (is_secure : Bool) (rest : List ℕ)
    → All NoSlash rest
    → second_part (
        split_slashes
          (codes "ws" ++ ((if is_secure then codes "s" else []) ++ (codes "://" ++ rest))))
      ≡ rest
unfolding split_slashes
url_parts true rest h = rw (split_slashes_one rest h)
url_parts false rest h = rw (split_slashes_one rest h)

digits-NoSlash : (port : ℕ) → All NoSlash (digits (suc port) port)
digits-NoSlash port =
    All-map (λ c h. ground (arith, h)) (digits (suc port) port) (digits_decimal (suc port) port)

digits-NoColon : (port : ℕ) → All NoColon (digits (suc port) port)
digits-NoColon port =
    All-map (λ c h. ground (arith, h)) (digits (suc port) port) (digits_decimal (suc port) port)

-- The URL of a host whose name has no slash and no colon comes apart into that name and the digits of
-- the port, secure or not.
pub host_url-address_and_port :
    (is_secure : Bool) (host : List ℕ) (port : ℕ)
    → All NoSlash host
    → All NoColon host
    → address_and_port (host_url is_secure host port) ≡ some (host, digits (suc port) port)
unfolding host_url address_and_port
host_url-address_and_port is_secure host port slashes colons =
    let rest = host ++ 58 ∷ digits (suc port) port in
    let whole : All NoSlash rest =
      All-append NoSlash host (58 ∷ digits (suc port) port) slashes (refl, digits-NoSlash port) in
    ap (λ x. as_pair (split_colon x)) (url_parts is_secure rest whole)
    ∙ ap as_pair (split_colon_two host (digits (suc port) port) colons (digits-NoColon port))

-- The URL of a host that is an address with a colon in it does not come apart: the assignment of its
-- parts raises.
pub host_url-colon :
    (is_secure : Bool) (front back : List ℕ) (port : ℕ)
    → All NoSlash (front ++ 58 ∷ back)
    → All NoColon front
    → All NoColon back
    → address_and_port (host_url is_secure (front ++ 58 ∷ back) port) ≡ none
unfolding host_url address_and_port
host_url-colon is_secure front back port slashes before behind =
    let rest = (front ++ 58 ∷ back) ++ (58 ∷ digits (suc port) port) in
    let whole : All NoSlash rest =
      All-append NoSlash (front ++ 58 ∷ back) (58 ∷ digits (suc port) port) slashes
        (refl, digits-NoSlash port) in
    ap (λ x. as_pair (split_colon x)) (url_parts is_secure rest whole)
    ∙ ap as_pair
        (split_colon_three front back (digits (suc port) port) before behind (digits-NoColon port))
