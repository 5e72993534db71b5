-- ===== src/Tests.antt =====
-- The theorems applied to small databases, and runs of the modelled code.
mod Samples
mod Applications
mod Dispatch
mod Worker
mod Auth
mod PasswordReset
mod Llm
mod Harness
mod Memory
mod Credentials
mod PlatformSessions
mod Storage
mod Account
mod JobSearch
mod Ats
mod Documents
mod Resumes
mod CoverLetters
mod RateLimit
