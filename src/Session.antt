-- ===== src/Session.antt =====
-- The bearer token: web/src/store/forumApi.ts (getToken, setToken, clearToken, prepareHeaders), the
-- auth gate of web/src/App.tsx, web/src/components/pages/RegisterScreen/RegisterScreen.tsx, and the
-- button of web/src/components/pages/ForumShell/ForumShell.tsx that forgets the token.
pub mod Token
pub mod Gate
pub mod Register
pub mod Laws
