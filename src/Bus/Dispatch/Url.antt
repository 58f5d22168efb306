-- ===== src/Bus/Dispatch/Url.antt =====
-- The URL of an http-forward task.
use text.Mathlib.Text.{starts_with}
use text.Mathlib.TextPositions.{len-append, slice-append_right, starts_with-append}
use open_mamba.Base.{ℕ, zero, suc, ◌≤◌, ◌≡◌, refl, String, len, false, arith}
use open_mamba.Platform.{◌⧺◌}
use open_mamba.Bus.Dispatch.{forward_prefix, forward_url, trim_prefix}

-- A URL after `n` copies of the prefix.
abbrev pub prefixed : ℕ → String → String
prefixed zero url = url
prefixed (suc n) url = "http-forward:" ⧺ prefixed n url

-- Each copy is 13 bytes, so that there are at most as many as bytes.
len-prefixed : (n : ℕ) (url : String) → n ≤ len (prefixed n url)
len-prefixed zero url = omega arith
len-prefixed (suc n) url =
    omega (arith, len-append forward_prefix (prefixed n url), len-prefixed n url)

trim_prefix-plain :
    (n : ℕ) (url : String) → starts_with url forward_prefix ≡ false → trim_prefix n url ≡ url
unfolding trim_prefix
trim_prefix-plain zero url h = refl
trim_prefix-plain (suc n) url h = rw h refl

-- One round for each copy is enough, and no byte of the URL is lost.
trim_prefix-prefixed :
    (n m : ℕ) (url : String)
    → starts_with url forward_prefix ≡ false
    → n ≤ m
    → trim_prefix m (prefixed n url) ≡ url
unfolding trim_prefix
trim_prefix-prefixed zero m url h le = trim_prefix-plain m url h
trim_prefix-prefixed (suc n) zero url h le = absurd (omega (arith, le))
trim_prefix-prefixed (suc n) (suc m) url h le =
    rw
      (
        starts_with-append forward_prefix (prefixed n url),
        len-append forward_prefix (prefixed n url),
        slice-append_right forward_prefix (prefixed n url),
      )
      (trim_prefix-prefixed n m url h (omega (arith, le)))

pub forward_url-prefixed :
    (n : ℕ) (url : String)
    → starts_with url forward_prefix ≡ false
    → forward_url (prefixed n url) ≡ url
unfolding forward_url
forward_url-prefixed n url h =
    trim_prefix-prefixed n (len (prefixed n url)) url h (len-prefixed n url)
