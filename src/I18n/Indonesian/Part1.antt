-- ===== src/I18n/Indonesian/Part1.antt =====
-- web/src/lib/i18n/id.ts, lines 3 to 125.
use ku_crud.Base.{String, [], ◌∷◌}
use ku_crud.Base.Assoc.{Assoc}

abbrev pub indonesian_1 : Assoc String
indonesian_1 =
    ("nav.tables", "Tabel & Skema")
    ∷ ("nav.datasources", "Datasource")
    ∷ ("nav.transfer", "Transfer Definisi")
    ∷ ("nav.users", "Pengguna")
    ∷ ("nav.roles", "Peran & Akses")
    ∷ ("nav.audit", "Jejak Audit")
    ∷ ("nav.hooksOutbox", "Outbox Hook")
    ∷ ("nav.docs", "Dokumentasi")
    ∷ ("nav.activeTables", "Tabel Aktif ({count})")
    ∷ ("nav.newGroup", "Grup baru")
    ∷ ("nav.noTables", "Belum ada tabel")
    ∷ ("nav.section", "Navigasi")
    ∷ ("nav.loadingTables", "Memuat tabel...")
    ∷ ("nav.moveToGroup", "Pindahkan ke grup")
    ∷ ("nav.noGroup", "Tanpa grup")
    ∷ ("nav.expandSidebar", "Buka sidebar")
    ∷ ("nav.collapseSidebar", "Tutup sidebar")
    ∷ ("nav.expandGroup", "Buka grup")
    ∷ ("nav.collapseGroup", "Tutup grup")
    ∷ ("nav.moveUp", "Naikkan grup")
    ∷ ("nav.moveDown", "Turunkan grup")
    ∷ ("nav.groupNamePrompt", "Nama grup")
    ∷ ("nav.renameGroup", "Ubah nama grup")
    ∷ ("nav.deleteGroup", "Hapus grup")
    ∷ (
      "nav.deleteGroupConfirm",
      "Hapus grup \"{name}\"? Tabelnya tetap ada, hanya dikeluarkan dari grup.",
    )
    ∷ ("nav.createGroupHint", "Buat grup tabel baru")
    ∷ ("nav.brandSubtitle", "Portal Basis Data")
    ∷ ("nav.adminUser", "Pengguna Admin")
    ∷ ("nav.online", "Daring")
    ∷ ("nav.logout", "Keluar")
    ∷ ("nav.groupActionFailed", "Aksi grup gagal")
    ∷ ("app.language", "Bahasa")
    ∷ ("app.header.tables", "Tabel & Skema")
    ∷ ("app.header.tablesSub", "Konfigurasikan definisi basis data dinamis")
    ∷ ("app.header.newTable", "Definisi Tabel Baru")
    ∷ ("app.header.newTableSub", "Daftarkan dan petakan tabel basis data ke Ku-CRUD")
    ∷ ("app.header.editTable", "Ubah Definisi Tabel")
    ∷ ("app.header.editTableSub", "Ubah pemetaan kolom dan aturan tampilan")
    ∷ ("app.header.datasources", "Datasource")
    ∷ ("app.header.datasourcesSub", "Kelola pool koneksi basis data")
    ∷ ("app.header.audit", "Jejak Audit")
    ∷ ("app.header.auditSub", "Lacak log dan diff mutasi basis data")
    ∷ ("app.header.transfer", "Transfer Definisi")
    ∷ ("app.header.transferSub", "Ekspor dan impor definisi tabel antar-instance")
    ∷ ("app.header.users", "Manajemen Pengguna")
    ∷ ("app.header.usersSub", "Kelola akun login dan penugasan peran")
    ∷ ("app.header.roles", "Peran & Akses")
    ∷ ("app.header.rolesSub", "Tentukan izin platform dan per tabel")
    ∷ ("app.header.import", "Impor CSV")
    ∷ ("app.header.importSub", "Unggah, petakan, dan validasi baris sebelum disisipkan")
    ∷ ("app.header.data", "Penjelajah Data")
    ∷ ("app.header.dataSub", "Administrasi CRUD tabel langsung")
    ∷ ("app.header.docs", "Dokumentasi")
    ∷ ("app.header.docsSub", "Cara menggunakan dan mengonfigurasi Ku-CRUD")
    ∷ ("app.header.default", "Ku-CRUD")
    ∷ ("app.header.defaultSub", "Administrasi Basis Data")
    ∷ ("login.subtitle", "Masuk untuk mengelola skema dan data basis data")
    ∷ ("login.error", "Nama pengguna atau kata sandi salah")
    ∷ ("login.username", "Nama Pengguna")
    ∷ ("login.usernamePh", "Masukkan nama pengguna")
    ∷ ("login.password", "Kata Sandi")
    ∷ ("login.passwordPh", "Masukkan kata sandi")
    ∷ ("login.signingIn", "Sedang masuk...")
    ∷ ("login.signIn", "Masuk")
    ∷ ("login.footer", "Portal Admin Terlindungi")
    ∷ ("login.footerEngine", "Ku-CRUD Engine")
    ∷ ("setup.welcome", "Selamat datang di Ku-CRUD")
    ∷ ("setup.desc", "Buat pengguna admin pertama untuk memulai.")
    ∷ ("setup.username", "Nama Pengguna")
    ∷ ("setup.password", "Kata Sandi")
    ∷ ("setup.create", "Buat pengguna")
    ∷ ("setup.failed", "pengaturan awal gagal")
    ∷ ("tables.statTables", "Tabel Terkonfigurasi")
    ∷ ("tables.statTablesSub", "Skema basis data yang dikelola")
    ∷ ("tables.statDs", "Datasource Aktif")
    ∷ ("tables.statDsSub", "Pool basis data terhubung")
    ∷ ("tables.statStatus", "Status")
    ∷ ("tables.ready", "Siap")
    ∷ ("tables.statStatusSub", "API CRUD otomatis aktif")
    ∷ ("tables.title", "Definisi Tabel")
    ∷ ("tables.subtitle", "Pilih atau daftarkan tabel basis data untuk mulai mengelola data")
    ∷ ("tables.filter", "Saring tabel...")
    ∷ ("tables.add", "Tambah Tabel")
    ∷ ("tables.colLabel", "Label Tampilan")
    ∷ ("tables.colTable", "Tabel Basis Data")
    ∷ ("tables.colKey", "Kunci")
    ∷ ("tables.loading", "Memuat definisi tabel...")
    ∷ ("tables.empty", "Tidak ada definisi tabel")
    ∷ ("tables.emptyHint", "Klik \"Tambah Tabel\" untuk memetakan tabel basis data ke Ku-CRUD.")
    ∷ ("tables.viewData", "Lihat Data")
    ∷ ("tables.deleteConfirm", "Hapus definisi \"{name}\"? (Tabel datanya tetap utuh)")
    ∷ ("tables.sourceTable", "Tabel fisik")
    ∷ ("tables.sourceQuery", "Query SQL")
    ∷ ("tables.validateQuery", "Validasi & pratinjau kolom")
    ∷ ("tables.validating", "Memvalidasi...")
    ∷ ("tables.droppedCols", "Kolom tanpa alias (dilewati)")
    ∷ ("tform.loading", "Memuat definisi tabel...")
    ∷ ("tform.editTitle", "Ubah Definisi: {label}")
    ∷ ("tform.createTitle", "Buat Definisi Tabel")
    ∷ ("tform.editSub", "Mengubah pemetaan untuk definisi #{id}")
    ∷ ("tform.createSub", "Petakan tabel basis data ke Ku-CRUD melalui konfigurasi bertahap")
    ∷ ("tform.saveChanges", "Simpan Perubahan")
    ∷ ("tform.createDef", "Buat Definisi")
    ∷ ("tform.step1", "Langkah 1: Pilih Koneksi Datasource")
    ∷ ("tform.step1Desc", "Pilih pool koneksi basis data yang aktif")
    ∷ ("tform.locked", "Terkunci saat mengubah")
    ∷ ("tform.dsConn", "Koneksi Datasource")
    ∷ ("tform.dsPh", "Pilih koneksi basis data...")
    ∷ ("tform.noDs", "Belum ada datasource. Silakan tambahkan koneksi Datasource terlebih dahulu.")
    ∷ ("tform.step2", "Langkah 2: Pilih Tabel dari Skema")
    ∷ ("tform.step2Desc", "Pilih tabel basis data target untuk membuat pemetaan CRUD")
    ∷ ("tform.selectDsFirst", "Pilih Datasource dahulu")
    ∷ ("tform.dbTable", "Tabel Basis Data")
    ∷ ("tform.tablePh", "Pilih tabel...")
    ∷ ("tform.inspected", "Skema Basis Data Terinspeksi ({name})")
    ∷ ("tform.rawCols", "{count} kolom DB mentah terinspeksi")
    ∷ ("tform.inspecting", "Menginspeksi skema dan tipe data tabel mentah dari basis data...")
    ∷ ("tform.colRawName", "Nama Kolom Mentah")
    ∷ ("tform.colDbType", "Tipe Data DB")
    ∷ []
