-- ===== src/Errors/Report.antt =====
-- What a report of an error code tells: the label stands whole at its end if the buffer has room,
-- and then the report names one code only.
use Prim.Native.String.{String}
use mathlib.Core.Path.{subst}
use mathlib.Core.List.{append_cancel_left}
use power_boot.Prelude.{
  ◌≤◌, ◌≡◌, refl, sym, ap, ◌∙◌, true, false, Bool, ◌&&◌, Option, none, some, List, [], ◌∷◌, ◌++◌,
  map, length, take-all, ◌==◌,
}
use power_boot.Prelude.Text.{Text, codes}
use power_boot.Errors.{
  OsErr, no_err, xti, unix, net, port, unlisted, error_name, buffer_255, report_head, report,
}
use power_boot.Errors.Xti.{XtiErr, xti_name, xti_errors}
use power_boot.Errors.Unix.{UnixErr, unix_name, unix_errors}
use power_boot.Errors.Net.{NetErr, net_name, net_errors}
use power_boot.Errors.Port.{PortErr, port_name, port_errors}

same_text : Text → Text → Bool
same_text [] [] = true
same_text (a ∷ s) (b ∷ t) = (a == b) && same_text s t
same_text _ _ = false

abbrev has_name : Text → Option String → Bool
has_name s none = false
has_name s (some n) = same_text (codes n) s

-- The first listed code with that label.
search_name : Text → List OsErr → Option OsErr
unfolding same_text error_name
search_name s [] = none
search_name s (e ∷ es) = elim (has_name s (error_name e)) [
  | true ↦ some e
  | false ↦ search_name s es
]

abbrev listed : List OsErr
listed = map xti xti_errors ++ map unix unix_errors ++ map net net_errors ++ map port port_errors

code_of : Text → Option OsErr
unfolding search_name
code_of s = search_name s listed

code_of-xti : (e : XtiErr) → code_of (codes (xti_name e)) ≡ some (xti e)
unfolding code_of xti_name
code_of-xti XtiErr.out_of_memory = refl
code_of-xti _ = refl

code_of-unix : (e : UnixErr) → code_of (codes (unix_name e)) ≡ some (unix e)
unfolding code_of unix_name
code_of-unix UnixErr.eperm = refl
code_of-unix _ = refl

code_of-net : (e : NetErr) → code_of (codes (net_name e)) ≡ some (net e)
unfolding code_of net_name
code_of-net NetErr.eaddrinuse = refl
code_of-net _ = refl

code_of-port : (e : PortErr) → code_of (codes (port_name e)) ≡ some (port e)
unfolding code_of port_name
code_of-port PortErr.client_not_initted = refl
code_of-port _ = refl

some_inj : {A : Type 0} (a b : A) → some a ≡ some b → a ≡ b
some_inj a b h = cc

code_of-error_name : (e : OsErr) (n : String) → error_name e ≡ some n → code_of (codes n) ≡ some e
unfolding error_name
code_of-error_name no_err n h = cc
code_of-error_name (xti e) n h =
    subst (λ m. code_of (codes m) ≡ some (xti e)) (some_inj (xti_name e) n h) (code_of-xti e)
code_of-error_name (unix e) n h =
    subst (λ m. code_of (codes m) ≡ some (unix e)) (some_inj (unix_name e) n h) (code_of-unix e)
code_of-error_name (net e) n h =
    subst (λ m. code_of (codes m) ≡ some (net e)) (some_inj (net_name e) n h) (code_of-net e)
code_of-error_name (port e) n h =
    subst (λ m. code_of (codes m) ≡ some (port e)) (some_inj (port_name e) n h) (code_of-port e)
code_of-error_name (unlisted k) n h = cc

-- Where the buffer has room for the reports of two error codes with names, at one position, equal
-- buffers mean equal codes.
pub report-injective :
    (e f : OsErr) (n m : String) (func file line : Text)
    → error_name e ≡ some n
    → error_name f ≡ some m
    → length (report func file line n) ≤ 254
    → length (report func file line m) ≤ 254
    → buffer_255 (report func file line n) ≡ buffer_255 (report func file line m)
    → e ≡ f
unfolding report buffer_255
report-injective e f n m func file line he hf ln lm same =
    some_inj e f (sym (code_of-error_name e n he) ∙ ap code_of labels ∙ code_of-error_name f m hf)
  where
    whole : report func file line n ≡ report func file line m
    whole = sym (take-all 254 _ ln) ∙ same ∙ take-all 254 _ lm

    labels : codes n ≡ codes m
    labels = append_cancel_left (report_head func file line) (codes n) (codes m) whole
