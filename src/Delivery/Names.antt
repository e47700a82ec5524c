-- ===== src/Delivery/Names.antt =====
-- normalise_key (backend/app/external_orders/service.py).
use nextgen_backend.Prelude.{Text, ℕ, Bool, false, [], ◌∷◌, ◌++◌, if◌then◌else◌}
use nextgen_backend.Delivery.Types.{Casing}

drop_spaces : (ℕ → Bool) → Text → Text
drop_spaces is_space [] = []
drop_spaces is_space (c ∷ cs) =
    let rest = drop_spaces is_space cs in if is_space c then rest else c ∷ cs

backwards : Text → Text
backwards [] = []
backwards (c ∷ cs) = backwards cs ++ c ∷ []

-- `text.strip()`
abbrev strip : (ℕ → Bool) → Text → Text
strip is_space t = backwards (drop_spaces is_space (backwards (drop_spaces is_space t)))

-- Each run of white space becomes one space; `in_run` says that the last character was white.
one_space : (ℕ → Bool) → Bool → Text → Text
one_space is_space in_run [] = []
one_space is_space in_run (c ∷ cs) =
    let white = is_space c in
    let rest = one_space is_space white cs in
    if white then (if in_run then rest else 32 ∷ rest) else c ∷ rest

unfoldable pub normalise_key : Casing → Text → Text
unfolding drop_spaces backwards one_space
normalise_key casing text =
    one_space casing.is_space false (casing.lower (strip casing.is_space text))
