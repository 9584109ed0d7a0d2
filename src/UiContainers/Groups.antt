-- ===== src/UiContainers/Groups.antt =====
-- Grouping loses no container and doubles none.
use mathlib.Core.List.{Perm, perm_middle}
use mathlib.Core.List.Perm
use mathlib.Core.Path.{subst}
use nestjs_graphql_fastify_a.Common.{
  String, false, some, List, [], ◌∷◌, ◌++◌, append_assoc, append-nil, All, All-append, insert,
  lookup, keys, DistinctKeys, insert-DistinctKeys, ◌==◌, string_eq, if_elim, or_default, ◌≡◌, refl,
  ap, ◌∙◌, arith, eq_iff, Bool-cases, eq_refl, inl, inr,
}
use nestjs_graphql_fastify_a.Common.Text.{truthy?}
use nestjs_graphql_fastify_a.UiContainers.{
  Container, ServiceMap, group_one, group_from, push_container, group_by_service,
}

-- The containers of all services, one service after another
abbrev pub members : ServiceMap → List Container
members [] = []
members ((name, containers) ∷ services) = containers ++ members services

push_container-hit :
    (name : String) (c : Container) (cs : List Container) (services : ServiceMap)
    → push_container name c ((name, cs) ∷ services) ≡ (name, cs ++ c ∷ []) ∷ services
unfolding push_container insert lookup
push_container-hit name c cs services = rw (eq_refl name) refl

lookup-miss :
    (name first : String) (cs : List Container) (services : ServiceMap)
    → (first == name) ≡ false
    → lookup name ((first, cs) ∷ services) ≡ lookup name services
unfolding lookup
lookup-miss name first cs services h = rw h refl

insert-miss :
    (name first : String) (containers cs : List Container) (services : ServiceMap)
    → (first == name) ≡ false
    → insert name containers ((first, cs) ∷ services)
      ≡ (first, cs) ∷ insert name containers services
unfolding insert
insert-miss name first containers cs services h = rw h refl

push_container-miss :
    (name first : String) (c : Container) (cs : List Container) (services : ServiceMap)
    → (first == name) ≡ false
    → push_container name c ((first, cs) ∷ services) ≡ (first, cs) ∷ push_container name c services
unfolding push_container
push_container-miss name first c cs services h =
    ap (λ list. insert name (or_default list [] ++ c ∷ []) ((first, cs) ∷ services))
      (lookup-miss name first cs services h)
    ∙ insert-miss name first _ cs services h

members-push_container :
    (name : String) (c : Container) (services : ServiceMap)
    → Perm (members (push_container name c services)) (c ∷ members services)
members-push_container name c [] = unfold push_container insert lookup in Perm.rfl
members-push_container name c ((first, cs) ∷ services) = elim (Bool-cases (first == name)) [
  | inl h ↦
      rw
        (
          (eq_iff first name).0 h,
          push_container-hit name c cs services,
          append_assoc cs (c ∷ []) (members services),
        )
        (perm_middle cs (members services))
  | inr h ↦ rw (push_container-miss name first c cs services h) (
      Perm.trans (Perm.append_left cs (members-push_container name c services))
        (perm_middle cs (members services)))
]

-- Every container is in the group of its service.
abbrev pub IsMember : String → Container → Type 0
IsMember name c = c.service_name ≡ some name

abbrev pub IsGroup : String × List Container → Type 0
IsGroup (name, containers) = All (IsMember name) containers

push_container-IsGroup :
    (name : String) (c : Container) (services : ServiceMap)
    → IsMember name c
    → All IsGroup services
    → All IsGroup (push_container name c services)
push_container-IsGroup name c [] m h = unfold push_container insert lookup in ((m, tt), tt)
push_container-IsGroup name c ((first, cs) ∷ services) m (g, h) =
    elim (Bool-cases (first == name)) [
      | inl e ↦
          let same : first ≡ name = (eq_iff first name).0 e in
          rw
            (
              ap (λ n. push_container name c ((n, cs) ∷ services)) same,
              push_container-hit name c cs services,
            )
            (
              All-append (IsMember name) cs (c ∷ []) (subst (λ n. All (IsMember n) cs) same g)
                  (m, tt),
              h,
            )
      | inr e ↦
          rw (push_container-miss name first c cs services e)
            (g, push_container-IsGroup name c services m h)
    ]

snoc-perm : (cs : List Container) (c : Container) → Perm (cs ++ c ∷ []) (c ∷ cs)
snoc-perm [] c = Perm.rfl
snoc-perm (x ∷ cs) c = Perm.trans (Perm.cons x (snoc-perm cs c)) (Perm.swap c x cs)

-- What holds of the groups of the containers `seen`.
record IsGrouping (seen : List Container) (groups : ServiceMap × List Container) : Type 0 where
  all_there : Perm (members groups.0 ++ groups.1) seen
  once : DistinctKeys groups.0
  in_group : All IsGroup groups.0
  in_none : All (λ c. truthy? c.service_name ≡ false) groups.1

group_one-IsGrouping :
    (c : Container) (seen : List Container) (groups : ServiceMap × List Container)
    → IsGrouping seen groups
    → IsGrouping (c ∷ seen) (group_one c groups)
unfolding group_one
group_one-IsGrouping c seen (services, standalone) h =
    if_elim (IsGrouping (c ∷ seen)) (truthy? c.service_name)
      (λ named.
        let name = or_default c.service_name "" in
        let is : c.service_name ≡ some name = ground (arith, named) in
        record {
          all_there =
              Perm.trans (Perm.append_right standalone (members-push_container name c services))
                (Perm.cons c h.all_there);
          once = unfold push_container in insert-DistinctKeys name _ services h.once;
          in_group = push_container-IsGroup name c services is h.in_group;
          in_none = h.in_none;
        })
      (λ alone. record {
        all_there =
            Perm.trans
              (rw (← append_assoc (members services) standalone (c ∷ []))
                (snoc-perm (members services ++ standalone) c))
              (Perm.cons c h.all_there);
        once = h.once;
        in_group = h.in_group;
        in_none =
            All-append (λ c. truthy? c.service_name ≡ false) standalone (c ∷ []) h.in_none
              (alone, tt);
      })

group_from-IsGrouping :
    (seen : List Container) (groups : ServiceMap × List Container) (cs : List Container)
    → IsGrouping seen groups
    → (all : List Container) × IsGrouping all (group_from groups cs) × Perm all (cs ++ seen)
unfolding group_from
group_from-IsGrouping seen groups [] h = (seen, h, Perm.rfl)
group_from-IsGrouping seen groups (c ∷ cs) h =
    let (all, grouping, perm) =
      group_from-IsGrouping (c ∷ seen) (group_one c groups) cs
        (group_one-IsGrouping c seen groups h) in
    (all, grouping, Perm.trans perm (perm_middle cs seen))

-- Grouping is a partition: the containers of all services and the standalone ones are together the
-- containers that were given, each as often as it was given; no service has two groups, every
-- container of a group names its service, and a standalone one names none.
pub group_by_service_lem :
    (containers : List Container)
    → let groups = group_by_service containers in
      Perm (members groups.0 ++ groups.1) containers
      × DistinctKeys groups.0
      × All IsGroup groups.0
      × All (λ c. truthy? c.service_name ≡ false) groups.1
unfolding group_by_service
group_by_service_lem containers =
    let empty : IsGrouping [] ([], []) = record {
      all_there = Perm.nil;
      once = unfold keys in tt;
      in_group = tt;
      in_none = tt;
    } in
    let (all, grouping, perm) = group_from-IsGrouping [] ([], []) containers empty in
    (
      Perm.trans grouping.all_there (subst (Perm all) (append-nil containers) perm),
      grouping.once,
      grouping.in_group,
      grouping.in_none,
    )
