-- ===== src/Widgets/Shell.antt =====
-- web/src/widgets/shell.ts `resolvePageShell`: the chrome of a page, from what the page says of it.
use agentforum.Base.{◌&&◌, ◌||◌, Text, codes, text_eq, ◌≡◌, refl, ap, if◌then◌else◌}
use agentforum.Widgets.Values.{
  Value, str, arr, obj, Items, nil, end, field, is_object, property, field_of,
}
use agentforum.Widgets.Cells.{is_kind}

pub data Placement : Type 0 where
  top sidebar : Placement

-- The parts that are passed on unread are values of the page.
pub record PageNavigation : Type 0 where
  pub placement : Placement
  pub brand : Value
  pub aria_label : Value
  pub active_item_id : Value
  pub sidebar_width : Value
  pub sections : Items

pub data PageShell : Type 0 where
  vault none_shell : PageShell
  app_shell : PageNavigation → PageShell

abbrev pub placement_of : Value → Placement
placement_of value = if is_kind (codes "sidebar") value then sidebar else top

abbrev pub sections_of : Value → Items
sections_of (arr sections) = sections
sections_of _ = nil

unfoldable pub navigation_of : Value → PageNavigation
unfolding property
navigation_of nav = record {
  placement = placement_of (property (codes "placement") nav);
  brand = property (codes "brand") nav;
  aria_label = property (codes "ariaLabel") nav;
  active_item_id = property (codes "activeItemId") nav;
  sidebar_width = property (codes "sidebarWidth") nav;
  sections = sections_of (property (codes "sections") nav);
}

unfoldable pub resolve_page_shell : Value → PageShell
unfolding navigation_of property
resolve_page_shell shell =
    let kind = property (codes "kind") shell in
    let navigation = property (codes "navigation") shell in
    if is_object shell
    then if is_kind (codes "none") kind || is_kind (codes "root-owned") kind
      then none_shell
      else if is_kind (codes "app") kind && is_object navigation
      then app_shell (navigation_of navigation)
      else vault
    else vault

-- A page's shell in the form of `PvPageShell`, as the server writes it.
abbrev pub placement_text : Placement → Text
placement_text top = codes "top"
placement_text sidebar = codes "sidebar"

abbrev pub navigation_value : PageNavigation → Value
navigation_value n = obj (
    field (codes "placement") (str (placement_text n.placement)) (
      field (codes "brand") n.brand (
        field (codes "ariaLabel") n.aria_label (
          field (codes "activeItemId") n.active_item_id (
            field (codes "sidebarWidth") n.sidebar_width
              (field (codes "sections") (arr n.sections) end))))))

abbrev pub shell_value : PageShell → Value
shell_value vault = obj (field (codes "kind") (str (codes "vault")) end)
shell_value none_shell = obj (field (codes "kind") (str (codes "none")) end)
shell_value (app_shell n) =
    obj (
      field (codes "kind") (str (codes "app"))
        (field (codes "navigation") (navigation_value n) end))

placement_of-placement_text : (p : Placement) → placement_of (str (placement_text p)) ≡ p
placement_of-placement_text top = refl
placement_of-placement_text sidebar = refl

navigation_of-navigation_value : (n : PageNavigation) → navigation_of (navigation_value n) ≡ n
unfolding navigation_of property field_of
navigation_of-navigation_value n =
    ap (λ p. record n { placement = p }) (placement_of-placement_text n.placement)

-- A shell that is written in the form that the page's type gives it is resolved to itself.
pub resolve_page_shell-shell_value :
    (shell : PageShell) → resolve_page_shell (shell_value shell) ≡ shell
unfolding resolve_page_shell property field_of
resolve_page_shell-shell_value vault = refl
resolve_page_shell-shell_value none_shell = refl
resolve_page_shell-shell_value (app_shell n) = ap app_shell (navigation_of-navigation_value n)
