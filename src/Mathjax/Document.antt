-- ===== src/Mathjax/Document.antt =====
-- The calls that typeset formulas and add the style sheet, in any order with MathJax's answers.
use mathlib.Core.Logic.{◌≢◌}
use agentforum.Base.{
  ℕ, zero, suc, ◌≤◌, Bool, Option, none, some, List, [], ◌∷◌, ◌≡◌, refl, ap, ◌∙◌, arith, Text,
  length, either_branch, ◌>>=◌,
}
use agentforum.Mathjax.{
  DocPromise, pending, fulfilled, rejected, Page, ask_document, answer_document, go_on,
  get_document, settle_document, has_styles, ensure_math_styles, add_styles, resume_styles,
  TypesetResult, failed, typeset_tex,
}

-- A formula is to be typeset, the document is there or has failed, the style sheet is asked for, or a call
-- that waits to add it goes on.
pub data PageEvent : Type 0 where
  typeset_called styles_called styles_resumed : PageEvent
  settled : DocPromise → PageEvent

unfoldable pub page_step : Text → Page → PageEvent → Page
unfolding get_document settle_document ensure_math_styles resume_styles
page_step css p typeset_called = get_document p
page_step css p styles_called = ensure_math_styles p
page_step css p styles_resumed = resume_styles css p
page_step css p (settled answer) = settle_document answer p

unfoldable pub page_steps : Text → Page → List PageEvent → Page
unfolding page_step
page_steps css p [] = p
page_steps css p (e ∷ es) = page_steps css (page_step css p e) es

-- How many documents a state of the promise has taken.
abbrev pub builds_of : Option DocPromise → ℕ
builds_of none = 0
builds_of (some promise) = 1

-- At most one document is built, at most one style sheet added, and only when a document is there; a call
-- waits only for a document that has been asked for.
pub record OnePage (p : Page) : Type 0 where
  pub one_document : p.builds ≡ builds_of p.document
  pub one_sheet : length p.styles ≤ 1
  pub waits : p.document ≡ none → p.waiting ≡ 0

ask_document-OnePage :
    (d : Option DocPromise) (p : Page) → p.document ≡ d → OnePage p → OnePage (ask_document d p)
ask_document-OnePage none p e h = record {
  one_document = ap suc (h.one_document ∙ ap builds_of e);
  one_sheet = h.one_sheet;
  waits = λ k. cc;
}
ask_document-OnePage (some d) p e h = h

answer_document-OnePage :
    (d : Option DocPromise) (answer : DocPromise) (p : Page)
    → p.document ≡ d
    → OnePage p
    → OnePage (answer_document d answer p)
answer_document-OnePage none answer p e h = h
answer_document-OnePage (some pending) answer p e h = record {
  one_document = h.one_document ∙ ap builds_of e;
  one_sheet = h.one_sheet;
  waits = λ k. cc;
}
answer_document-OnePage (some fulfilled) answer p e h = h
answer_document-OnePage (some (rejected m)) answer p e h = h

length-add_styles : (css : Text) (ss : List Text) → length ss ≤ 1 → length (add_styles css ss) ≤ 1
length-add_styles css [] h = omega arith
length-add_styles css (s ∷ ss) h = h

go_on-OnePage :
    (d : Option DocPromise) (w : ℕ) (css : Text) (p : Page)
    → p.document ≡ d
    → OnePage p
    → OnePage (go_on d w css p)
go_on-OnePage none zero css p e h = h
go_on-OnePage none (suc w) css p e h = h
go_on-OnePage (some pending) zero css p e h = h
go_on-OnePage (some pending) (suc w) css p e h = h
go_on-OnePage (some fulfilled) zero css p e h = h
go_on-OnePage (some fulfilled) (suc w) css p e h = record {
  one_document = h.one_document;
  one_sheet = length-add_styles css p.styles h.one_sheet;
  waits = λ k. cc;
}
go_on-OnePage (some (rejected m)) zero css p e h = h
go_on-OnePage (some (rejected m)) (suc w) css p e h = record {
  one_document = h.one_document;
  one_sheet = h.one_sheet;
  waits = λ k. cc;
}

-- A document that has been asked for is there afterwards.
ask_document-asked :
    (d : Option DocPromise) (p : Page) → p.document ≡ d → (ask_document d p).document ≢ none
ask_document-asked none p e = λ k. cc
ask_document-asked (some d) p e = λ k. cc

ensure_math_styles-OnePage : (p : Page) → OnePage p → OnePage (ensure_math_styles p)
unfolding ensure_math_styles get_document
ensure_math_styles-OnePage p h =
    let asked = ask_document-OnePage p.document p refl h in
    either_branch OnePage (has_styles p.styles) h record {
      one_document = asked.one_document;
      one_sheet = asked.one_sheet;
      waits = λ k. absurd (ask_document-asked p.document p refl k);
    }

page_step-OnePage :
    (css : Text) (p : Page) (e : PageEvent) → OnePage p → OnePage (page_step css p e)
unfolding page_step get_document settle_document resume_styles
page_step-OnePage css p typeset_called h = ask_document-OnePage p.document p refl h
page_step-OnePage css p styles_called h = ensure_math_styles-OnePage p h
page_step-OnePage css p styles_resumed h = go_on-OnePage p.document p.waiting css p refl h
page_step-OnePage css p (settled answer) h = answer_document-OnePage p.document answer p refl h

-- However the calls for formulas and for the style sheet and MathJax's answers come, it stays so that at
-- most one document is built and at most one style sheet added to the page, and that calls wait only for a
-- document that has been asked for.
pub page_steps-OnePage :
    (css : Text) (p : Page) (es : List PageEvent) → OnePage p → OnePage (page_steps css p es)
unfolding page_steps
page_steps-OnePage css p [] h = h
page_steps-OnePage css p (e ∷ es) h =
    page_steps-OnePage css (page_step css p e) es (page_step-OnePage css p e h)

-- The steps keep a promise that has been rejected.
abbrev IsRejected : Text → Page → Type 0
IsRejected m p = p.document ≡ some (rejected m)

ask_document-IsRejected :
    (d : Option DocPromise) (m : Text) (p : Page)
    → d ≡ some (rejected m)
    → IsRejected m p
    → IsRejected m (ask_document d p)
ask_document-IsRejected none m p e h = cc
ask_document-IsRejected (some d) m p e h = h

answer_document-IsRejected :
    (d : Option DocPromise) (answer : DocPromise) (m : Text) (p : Page)
    → d ≡ some (rejected m)
    → IsRejected m p
    → IsRejected m (answer_document d answer p)
answer_document-IsRejected none answer m p e h = h
answer_document-IsRejected (some pending) answer m p e h = cc
answer_document-IsRejected (some fulfilled) answer m p e h = h
answer_document-IsRejected (some (rejected k)) answer m p e h = h

go_on-IsRejected :
    (d : Option DocPromise) (w : ℕ) (css m : Text) (p : Page)
    → IsRejected m p
    → IsRejected m (go_on d w css p)
go_on-IsRejected none zero css m p h = h
go_on-IsRejected none (suc w) css m p h = h
go_on-IsRejected (some pending) zero css m p h = h
go_on-IsRejected (some pending) (suc w) css m p h = h
go_on-IsRejected (some fulfilled) zero css m p h = h
go_on-IsRejected (some fulfilled) (suc w) css m p h = h
go_on-IsRejected (some (rejected k)) zero css m p h = h
go_on-IsRejected (some (rejected k)) (suc w) css m p h = h

page_step-IsRejected :
    (css m : Text) (p : Page) (e : PageEvent) → IsRejected m p → IsRejected m (page_step css p e)
unfolding page_step get_document settle_document resume_styles ensure_math_styles
page_step-IsRejected css m p typeset_called h = ask_document-IsRejected p.document m p h h
page_step-IsRejected css m p styles_called h =
    either_branch (IsRejected m) (has_styles p.styles) h
      (ask_document-IsRejected p.document m p h h)
page_step-IsRejected css m p styles_resumed h = go_on-IsRejected p.document p.waiting css m p h
page_step-IsRejected css m p (settled answer) h =
    answer_document-IsRejected p.document answer m p h h

page_steps-IsRejected :
    (css m : Text) (p : Page) (es : List PageEvent)
    → IsRejected m p
    → IsRejected m (page_steps css p es)
unfolding page_steps
page_steps-IsRejected css m p [] h = h
page_steps-IsRejected css m p (e ∷ es) h =
    page_steps-IsRejected css m (page_step css p e) es (page_step-IsRejected css m p e h)

-- What a call of `typesetTeX` answers on a page.
unfoldable pub typeset_on :
    {N : Type 0} → (Text → Bool → TypesetResult N) → Page → Text → Bool → Option (TypesetResult N)
unfolding typeset_tex
typeset_on convert p tex display =
    p.document >>= (λ promise. typeset_tex convert promise tex display)

-- Once the document could not be built, every formula that is typeset later fails with that error: it is
-- not built again.
page_steps-typeset_on :
    {N : Type 0} (convert : Text → Bool → TypesetResult N) (css m : Text) (p : Page)
    (es : List PageEvent) (tex : Text) (display : Bool)
    → p.document ≡ some (rejected m)
    → typeset_on convert (page_steps css p es) tex display ≡ some (failed m)
unfolding typeset_on typeset_tex
page_steps-typeset_on convert css m p es tex display h =
    ap (λ d. d >>= (λ promise. typeset_tex convert promise tex display))
      (page_steps-IsRejected css m p es h)
