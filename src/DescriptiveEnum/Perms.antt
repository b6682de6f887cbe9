-- ===== src/DescriptiveEnum/Perms.antt =====
-- The names of Permissions::PERMS, a list of shifts.
use nfs_client_simulator.Common.{ℕ, ◌≡◌, refl, ap, ◌∙◌, List, [], ◌∷◌, ◌++◌, none, ok}
use nfs_client_simulator.Text.{codes}
use nfs_client_simulator.NfsEnums.{
  Perms, perms_u32, xoth, woth, roth, xgrp, wgrp, rgrp, xusr, wusr, rusr, stxt, sgrp, susr,
}
use nfs_client_simulator.DescriptiveEnum.Names.{
  Enumerator, shifted, initializer, entries, last_name,
}
use nfs_client_simulator.DescriptiveEnum.Read.{AllEnumerators}
use nfs_client_simulator.DescriptiveEnum.Print.{or_empty, print_all, print_all-initializer}

abbrev pub perms : List Enumerator
perms =
    shifted (codes "XOTH") 0
    ∷ shifted (codes "WOTH") 1
    ∷ shifted (codes "ROTH") 2
    ∷ shifted (codes "XGRP") 3
    ∷ shifted (codes "WGRP") 4
    ∷ shifted (codes "RGRP") 5
    ∷ shifted (codes "XUSR") 6
    ∷ shifted (codes "WUSR") 7
    ∷ shifted (codes "RUSR") 8
    ∷ shifted (codes "STXT") 9
    ∷ shifted (codes "SGRP") 10
    ∷ shifted (codes "SUSR") 11
    ∷ []

-- What printEnum prints behind `PERMS::`.
abbrev pub printed : Perms → List ℕ
printed xoth = codes "SUSR"
printed woth = []
printed roth = []
printed xgrp = []
printed wgrp = []
printed rgrp = []
printed xusr = []
printed wusr = []
printed rusr = []
printed stxt = []
printed sgrp = []
printed susr = []

are_names : AllEnumerators perms
are_names = (
  (refl, (refl, (refl, (refl, tt)))),
  (
    (refl, (refl, (refl, (refl, tt)))),
    (
      (refl, (refl, (refl, (refl, tt)))),
      (
        (refl, (refl, (refl, (refl, tt)))),
        (
          (refl, (refl, (refl, (refl, tt)))),
          (
            (refl, (refl, (refl, (refl, tt)))),
            (
              (refl, (refl, (refl, (refl, tt)))),
              (
                (refl, (refl, (refl, (refl, tt)))),
                (
                  (refl, (refl, (refl, (refl, tt)))),
                  (
                    (refl, (refl, (refl, (refl, tt)))),
                    ((refl, (refl, (refl, (refl, tt)))), ((refl, (refl, (refl, (refl, tt)))), tt)),
                  ),
                ),
              ),
            ),
          ),
        ),
      ),
    ),
  ),
)

name_of : (p : Perms) → or_empty (last_name (entries 0 perms) (perms_u32 p)) ≡ printed p
name_of xoth = refl
name_of woth = refl
name_of roth = refl
name_of xgrp = refl
name_of wgrp = refl
name_of rgrp = refl
name_of xusr = refl
name_of wusr = refl
name_of rusr = refl
name_of stxt = refl
name_of sgrp = refl
name_of susr = refl

-- The first call of printEnum for a permission, with the text of the enumerators of PERMS: XOTH is printed as
-- SUSR, and of every other permission no name is printed.
pub print_perms :
    (p : Perms)
    → print_all none (perms_u32 p ∷ []) (codes "PERMS") (initializer perms)
      ≡ ok ((codes "PERMS::" ++ printed p) ∷ [])
print_perms p =
    print_all-initializer perms (perms_u32 p ∷ []) (codes "PERMS") are_names
    ∙ ap (λ t. ok ((codes "PERMS::" ++ t) ∷ [])) (name_of p)
